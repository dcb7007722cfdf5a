-- ===== src/Core/Subject/Blocks.antt =====
-- The loop that hands out blocks ends, and loses no sample.
use mathlib.Core.List.{append_assoc}
use nexus_n3_core.Prelude.{
  ℕ, zero, suc, ◌≤◌, ◌<◌, ◌≡◌, refl, ap, ◌∙◌, inl, inr, true, false, some, List, [], ◌∷◌, ◌++◌, All,
  arith, leb, length, take, drop, Bool-cases, length-take, length-drop, take-append-drop,
}
use nexus_n3_core.Core.Subject.{Sample, split}

unfoldable pub flatten : List (List Sample) → List Sample
flatten [] = []
flatten (b ∷ bs) = b ++ flatten bs

-- The blocks are full and the rest is shorter than a block; together they are the samples.
pub record IsSplit (b : ℕ) (xs : List Sample) (r : List (List Sample) × List Sample) : Type 0 where
  pub parts : flatten r.0 ++ r.1 ≡ xs
  pub full : All (λ block. length block ≡ b) r.0
  pub rest : length r.1 < b

short-IsSplit : (b : ℕ) (xs : List Sample) → leb b (length xs) ≡ false → IsSplit b xs ([], xs)
unfolding flatten
short-IsSplit b xs e = record { parts = refl; full = tt; rest = ground arith }

-- One block more.
longer-IsSplit :
    (b : ℕ) (xs : List Sample) (r : List (List Sample) × List Sample)
    → leb b (length xs) ≡ true
    → IsSplit b (drop b xs) r
    → IsSplit b xs (take b xs ∷ r.0, r.1)
unfolding flatten
longer-IsSplit b xs r e h = record {
  parts =
      append_assoc (take b xs) (flatten r.0) r.1
      ∙ ap (λ q. take b xs ++ q) h.parts
      ∙ take-append-drop b xs;
  full = (ground (arith, length-take b xs), h.full);
  rest = h.rest;
}

-- With at least as much fuel as there are samples, the loop ends for every positive block size.
pub split-IsSplit :
    (fuel b : ℕ) (xs : List Sample)
    → 0 < b
    → length xs ≤ fuel
    → (r : List (List Sample) × List Sample) × (split fuel b xs ≡ some r) × IsSplit b xs r
unfolding split
split-IsSplit zero b xs pos enough =
    let e : leb b (length xs) ≡ false = ground arith in
    (([], xs), rw (e, split) refl, short-IsSplit b xs e)
split-IsSplit (suc fuel) b xs pos enough = elim (Bool-cases (leb b (length xs))) [
  | inr e ↦ (([], xs), rw (e, split) refl, short-IsSplit b xs e)
  | inl e ↦
      let (r, found, h) = split-IsSplit fuel b (drop b xs) pos (ground (arith, length-drop b xs)) in
      ((take b xs ∷ r.0, r.1), rw (e, found, split) refl, longer-IsSplit b xs r e h)
]
