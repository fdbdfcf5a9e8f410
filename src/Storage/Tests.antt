-- ===== src/Storage/Tests.antt =====
-- A queue of at most two items, in a file.
use arduino_yun_bridge.Base.{◌≡◌, refl, true, some, [], ◌∷◌, ◌++◌, arith}
use arduino_yun_bridge.Storage.{works, returns, Deque, append}
use arduino_yun_bridge.Storage.Fifo.{IsCounted, keep_last, append_lem}

abbrev two : Deque
two = record { in_file = true; rows = (1 ∷ []) ∷ (2 ∷ []) ∷ []; count = 2; maxlen = some 2 }

two-IsCounted : IsCounted two
two-IsCounted = record { file = refl; counted = refl; bounded = λ n h. ground arith }

append_lem_example :
    IsCounted (append works (3 ∷ []) two).0
    × ((append works (3 ∷ []) two).0.rows ≡ keep_last (some 2) (two.rows ++ ((3 ∷ []) ∷ [])))
    × ((append works (3 ∷ []) two).1 ≡ returns (3 ∷ []))
append_lem_example = append_lem (3 ∷ []) two two-IsCounted
