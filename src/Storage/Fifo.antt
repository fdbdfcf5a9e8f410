-- ===== src/Storage/Fifo.antt =====
-- A queue in a file is a bounded first-in-first-out queue that forgets its oldest items.
use arduino_yun_bridge.Base.{
  Bool-cases, inl, inr, ltb, ltb, Bool-cases, ℕ, ◌+◌, ◌-◌, ◌≤◌, ◌≡◌, refl, true, Option, none, some,
  List, [], ◌∷◌, ◌++◌, arith, Bytes, length, drop, length-append, length-drop,
}
use arduino_yun_bridge.Base.Assoc.{text_key}
use arduino_yun_bridge.Storage.{
  fails, fails_once, clear, changes, append_impl, Database, works, returns, index_error, Deque,
  append, popleft, peek,
}

-- The count is the number of rows, and within the limit.
pub record IsCounted (d : Deque) : Type 0 where
  pub file : d.in_file ≡ true
  pub counted : d.count ≡ length d.rows
  pub bounded : (n : ℕ) → d.maxlen ≡ some n → length d.rows ≤ n

-- The last items, as many as the limit allows.
abbrev pub keep_last : Option ℕ → List Bytes → List Bytes
keep_last none xs = xs
keep_last (some n) xs = drop (length xs - n) xs

keep_last-impl :
    (m : Option ℕ) (item : Bytes) (rows : List Bytes)
    → append_impl m item rows (length rows)
      ≡ changes
          (keep_last m (rows ++ (item ∷ [])))
          (length (keep_last m (rows ++ (item ∷ []))))
          item
keep_last-impl none item rows = ground (arith, length-append rows (item ∷ []))
keep_last-impl (some n) item rows =
    let len = length-append rows (item ∷ []) in
    let kept = length-drop (length (rows ++ (item ∷ [])) - n) (rows ++ (item ∷ [])) in
    elim (Bool-cases (ltb n (length rows + 1))) [
      | inl over ↦ rw (len, over) (ground (arith, len, kept))
      | inr under ↦ rw (len, under) (ground (arith, len, kept))
    ]

keep_last-bounded :
    (m : Option ℕ) (xs : List Bytes) (n : ℕ) → m ≡ some n → length (keep_last m xs) ≤ n
keep_last-bounded none xs n h = absurd (ground arith)
keep_last-bounded (some k) xs n h = ground (arith, length-drop (length xs - k) xs)

-- While the database works, appending to a queue in a file keeps its count right and its limit, and leaves the newest items: the
-- old ones and the new one, less the oldest ones beyond the limit.
pub append_lem :
    (item : Bytes) (d : Deque)
    → IsCounted d
    → IsCounted (append works item d).0
      × ((append works item d).0.rows ≡ keep_last d.maxlen (d.rows ++ (item ∷ [])))
      × ((append works item d).1 ≡ returns item)
unfolding append
append_lem item d i =
    let kept = keep_last d.maxlen (d.rows ++ (item ∷ [])) in
    let impl : append_impl d.maxlen item d.rows d.count ≡ changes kept (length kept) item =
      rw i.counted (keep_last-impl d.maxlen item d.rows) in
    rw (i.file, impl)
      (
        record {
          file = refl;
          counted = refl;
          bounded = λ n h. keep_last-bounded d.maxlen (d.rows ++ (item ∷ [])) n h;
        },
        refl,
        refl,
      )

clear-IsCounted : (d : Deque) → IsCounted d → IsCounted (clear d)
clear-IsCounted d i = ground arith

-- The second try works on the emptied file.
append-again :
    (item : Bytes) (d : Deque)
    → d.in_file ≡ true
    → append fails_once item d ≡ append works item (clear d)
unfolding append
append-again item d file = ground arith

-- Whatever the database does, an append, a removal or a look at the first item leaves a queue in a file
-- with the right count and within its limit.
pub operations-IsCounted :
    (db : Database) (item : Bytes) (d : Deque)
    → IsCounted d
    → IsCounted (append db item d).0 × IsCounted (popleft db d).0 × IsCounted (peek db d).0
operations-IsCounted works item d i =
    ((append_lem item d i).0, unfold popleft in ground arith, unfold peek in ground arith)
operations-IsCounted fails_once item d i = (
  rw (append-again item d i.file) ((append_lem item (clear d) (clear-IsCounted d i)).0),
  unfold popleft in ground arith,
  unfold peek in ground arith,
)
operations-IsCounted fails item d i =
    (unfold append in ground arith, unfold popleft in ground arith, unfold peek in ground arith)

-- While the database works, a removal from a queue in a file returns the oldest item, and the others
-- stay in their order; an empty queue raises IndexError and stays as it is.
pub popleft_lem :
    (d : Deque)
    → d.in_file ≡ true
    → ((rest : List Bytes) (item : Bytes)
        → d.rows ≡ item ∷ rest
        → ((popleft works d).1 ≡ returns item) × ((popleft works d).0.rows ≡ rest))
      × (d.rows ≡ [] → ((popleft works d).1 ≡ index_error) × ((popleft works d).0 ≡ d))
unfolding popleft
popleft_lem d file = ((λ rest item e. ground arith), λ e. ground arith)
