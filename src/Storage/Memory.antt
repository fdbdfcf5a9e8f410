-- ===== src/Storage/Memory.antt =====
-- The queue under ":memory:", which state/context.py falls back to when it has no directory.
use arduino_yun_bridge.Base.{
  inl, inr, Option-cases, ap, ◌∙◌, Option-cases, ◌≤◌, ◌≡◌, ◌≢◌, false, some, arith, Bytes,
}
use arduino_yun_bridge.Storage.{works, returns, index_error, Deque, append, popleft}

-- While the database works, a queue in memory takes items and counts them, but gives none back: an
-- append succeeds and leaves a
-- count of at least one (unless the limit is zero), and the removal behind it raises IndexError and
-- leaves the count.
pub memory_loses :
    (item : Bytes) (d : Deque)
    → d.in_file ≡ false
    → d.maxlen ≢ some 0
    → let d' = (append works item d).0 in
      ((append works item d).1 ≡ returns item)
      × (1 ≤ d'.count)
      × (popleft works d' ≡ (d', index_error))
unfolding append popleft
memory_loses item d memory limited = elim (Option-cases d.maxlen) [
  | inl e ↦ ground (arith, e)
  | inr (n, e) ↦ let positive : n ≢ 0 = λ z. limited (e ∙ ap some z) in ground (arith, e, positive)
]
