-- ===== src/Console/Chunks.antt =====
-- What `iter_chunks` makes of its data.
use arduino_yun_bridge.Base.{
  ℕ, zero, suc, ◌≤◌, ◌≡◌, refl, ap, ◌∙◌, List, [], ◌∷◌, ◌++◌, arith, Bytes, take, drop, length,
  length-take, length-drop, take-append-drop, All,
}
use arduino_yun_bridge.Console.{chunks_from, iter_chunks}

abbrev pub concat : List Bytes → Bytes
concat [] = []
concat (x ∷ xs) = x ++ concat xs

concat-chunks_from :
    (left size : ℕ) (whole : Bytes)
    → 1 ≤ size
    → length whole ≤ left
    → concat (chunks_from left size whole) ≡ whole
unfolding chunks_from
concat-chunks_from zero size [] pos le = refl
concat-chunks_from zero size (b ∷ bs) pos le = absurd (omega arith)
concat-chunks_from (suc left) size [] pos le = refl
concat-chunks_from (suc left) size (b ∷ bs) pos le =
    let shorter = length-drop size (b ∷ bs) in
    ap (λ r. take size (b ∷ bs) ++ r)
      (concat-chunks_from left size (drop size (b ∷ bs)) pos (omega (arith, shorter)))
    ∙ take-append-drop size (b ∷ bs)

fit-chunks_from :
    (left size : ℕ) (whole : Bytes)
    → 1 ≤ size
    → All (λ chunk. (1 ≤ length chunk) × (length chunk ≤ size)) (chunks_from left size whole)
unfolding chunks_from
fit-chunks_from zero size whole pos = tt
fit-chunks_from (suc left) size [] pos = tt
fit-chunks_from (suc left) size (b ∷ bs) pos =
    let len = length-take size (b ∷ bs) in
    ((omega (arith, len), omega (arith, len)), fit-chunks_from left size (drop size (b ∷ bs)) pos)

-- For a positive size, the chunks joined in their order are the data, and each is neither empty nor
-- longer than the size.
pub iter_chunks_lem :
    (whole : Bytes) (size : ℕ)
    → 1 ≤ size
    → (concat (iter_chunks whole size) ≡ whole)
      × All (λ chunk. (1 ≤ length chunk) × (length chunk ≤ size)) (iter_chunks whole size)
unfolding iter_chunks
iter_chunks_lem whole size pos = (
  concat-chunks_from (length whole) size whole pos (omega arith),
  fit-chunks_from (length whole) size whole pos,
)
