-- ===== src/Fec/Erasure.antt =====
-- moonlight-common-go/fec/fec.go: which shards `Reconstruct` finds, keeps and misses.
use moonparty.Base.{
  ℕ, zero, suc, ◌+◌, ◌≤◌, ◌<◌, ◌≡◌, ◌∙◌, refl, sym, ap, inl, inr, Bool, true, false, List, [], ◌∷◌,
  arith, Bool-cases, length, get_or, eq-or-ne, eq→==, ne→==_false,
}
use moonparty.Base.All.{All, All-and}
use moonparty.Fec.Codec.{missing_data, kept_data}

-- Ascending numbers, from `lo` on and below `hi`.
abbrev pub Between : ℕ → ℕ → List ℕ → Type 0
Between lo hi [] = Unit
Between lo hi (x ∷ xs) = (lo ≤ x) × (x < hi) × Between (suc x) hi xs

pub Between-weaken : (lo lo' hi : ℕ) (xs : List ℕ) → lo' ≤ lo → Between lo hi xs → Between lo' hi xs
Between-weaken lo lo' hi [] l h = tt
Between-weaken lo lo' hi (x ∷ xs) l (a, b, h) = (omega arith, b, h)

pub Between-All : (lo hi : ℕ) (xs : List ℕ) → Between lo hi xs → All (λ x. (lo ≤ x) × (x < hi)) xs
Between-All lo hi [] h = tt
Between-All lo hi (x ∷ xs) (a, b, h) =
    ((a, b), All-and xs (λ y r. (omega arith, r.1)) (Between-All (suc x) hi xs h))

module _ (present : List Bool) where
  pub missing_data-Between :
      (rounds i hi : ℕ) → i + rounds ≡ hi → Between i hi (missing_data rounds i present)
  unfolding missing_data
  missing_data-Between zero i hi e = tt
  missing_data-Between (suc rounds) i hi e =
      let later = missing_data-Between rounds (i + 1) hi (omega arith) in
      elim (Bool-cases (get_or present i false)) [
        | inl here ↦ rw here (Between-weaken (i + 1) i hi _ (omega arith) later)
        | inr gone ↦
            rw gone
              (omega arith, omega arith, Between-weaken (i + 1) (suc i) hi _ (omega arith) later)
      ]

  pub missing_here :
      (rounds i : ℕ)
      → get_or present i false ≡ true
      → missing_data (suc rounds) i present ≡ missing_data rounds (i + 1) present
  unfolding missing_data
  missing_here rounds i h = rw h

  pub missing_gone :
      (rounds i : ℕ)
      → get_or present i false ≡ false
      → missing_data (suc rounds) i present ≡ i ∷ missing_data rounds (i + 1) present
  unfolding missing_data
  missing_gone rounds i h = rw h

  pub missing_data-All :
      (P : ℕ → Type 0) (rounds i : ℕ)
      → All P (missing_data rounds i present)
      → (j : ℕ) → i ≤ j
      → j < i + rounds
      → get_or present j false ≡ false
      → P j
  missing_data-All P zero i h j lo up gone = absurd (omega arith)
  missing_data-All P (suc rounds) i h j lo up gone = elim (Bool-cases (get_or present i false)) [
    | inl here ↦ elim (eq-or-ne j i) [
      | inl e ↦ absurd (differ (sym (rw e at gone) ∙ here))
      | inr ne ↦
          missing_data-All P rounds (i + 1) (rw (missing_here rounds i here) at h) j (omega arith)
            (omega arith) gone
    ]
    | inr absent ↦
        let (first, later) = rw (missing_gone rounds i absent) at h in
        elim (eq-or-ne j i) [
          | inl e ↦ rw e first
          | inr ne ↦ missing_data-All P rounds (i + 1) later j (omega arith) (omega arith) gone
        ]
  ]
    where
      differ : false ≡ true → ⊥
      differ e = cc

kept_skip :
    (rounds i hi : ℕ) (xs : List ℕ)
    → Between (suc i) hi xs
    → kept_data (suc rounds) i xs ≡ i ∷ kept_data rounds (i + 1) xs
unfolding kept_data
kept_skip rounds i hi [] h = refl
kept_skip rounds i hi (x ∷ xs) (a, b, h) = rw (ne→==_false i x (λ e. absurd (omega arith)))

kept_pass :
    (rounds i : ℕ) (xs : List ℕ) → kept_data (suc rounds) i (i ∷ xs) ≡ kept_data rounds (i + 1) xs
unfolding kept_data
kept_pass rounds i xs = rw (eq→== i i refl)

module _ (present : List Bool) where
  kept_here :
      (rounds i : ℕ)
      → get_or present i false ≡ true
      → kept_data (suc rounds) i (missing_data (suc rounds) i present)
        ≡ i ∷ kept_data rounds (i + 1) (missing_data rounds (i + 1) present)
  kept_here rounds i h =
      ap (kept_data (suc rounds) i) (missing_here present rounds i h)
      ∙ kept_skip rounds i (i + 1 + rounds) _ (
          Between-weaken (i + 1) (suc i) (i + 1 + rounds) _ (omega arith)
            (missing_data-Between present rounds (i + 1) (i + 1 + rounds) refl))

  kept_gone :
      (rounds i : ℕ)
      → get_or present i false ≡ false
      → kept_data (suc rounds) i (missing_data (suc rounds) i present)
        ≡ kept_data rounds (i + 1) (missing_data rounds (i + 1) present)
  kept_gone rounds i h =
      ap (kept_data (suc rounds) i) (missing_gone present rounds i h) ∙ kept_pass rounds i _

  -- What holds of the kept shards holds of those that are present, and the other way.
  pub kept_data-All :
      (P : ℕ → Type 0) (rounds i : ℕ)
      → All P (kept_data rounds i (missing_data rounds i present))
      → (j : ℕ) → i ≤ j
      → j < i + rounds
      → get_or present j false ≡ true
      → P j
  kept_data-All P zero i h j lo up here = absurd (omega arith)
  kept_data-All P (suc rounds) i h j lo up here = elim (Bool-cases (get_or present i false)) [
    | inl there ↦
        let (first, later) = rw (kept_here rounds i there) at h in
        elim (eq-or-ne j i) [
          | inl e ↦ rw e first
          | inr ne ↦ kept_data-All P rounds (i + 1) later j (omega arith) (omega arith) here
        ]
    | inr absent ↦ elim (eq-or-ne j i) [
      | inl e ↦ absurd (differ (sym (rw e at here) ∙ absent))
      | inr ne ↦
          kept_data-All P rounds (i + 1) (rw (kept_gone rounds i absent) at h) j (omega arith)
            (omega arith) here
    ]
  ]
    where
      differ : true ≡ false → ⊥
      differ e = cc

  pub All-kept_data :
      (P : ℕ → Type 0) (rounds i : ℕ)
      → ((j : ℕ) → i ≤ j → j < i + rounds → get_or present j false ≡ true → P j)
      → All P (kept_data rounds i (missing_data rounds i present))
  unfolding kept_data missing_data
  All-kept_data P zero i h = tt
  All-kept_data P (suc rounds) i h =
      let later = All-kept_data P rounds (i + 1) (λ j a b. h j (omega arith) (omega arith)) in
      elim (Bool-cases (get_or present i false)) [
        | inl here ↦ rw (kept_here rounds i here) (h i (omega arith) (omega arith) here, later)
        | inr gone ↦ rw (kept_gone rounds i gone) later
      ]

  pub length-kept_data :
      (rounds i : ℕ)
      → length (kept_data rounds i (missing_data rounds i present))
          + length (missing_data rounds i present)
        ≡ rounds
  unfolding kept_data missing_data
  length-kept_data zero i = refl
  length-kept_data (suc rounds) i = elim (Bool-cases (get_or present i false)) [
    | inl here ↦
        rw (kept_here rounds i here, missing_here present rounds i here)
          (omega (arith, length-kept_data rounds (i + 1)))
    | inr gone ↦
        rw (kept_gone rounds i gone, missing_gone present rounds i gone)
          (omega (arith, length-kept_data rounds (i + 1)))
  ]

  pub All-missing_data :
      (P : ℕ → Type 0) (rounds i : ℕ)
      → ((j : ℕ) → i ≤ j → j < i + rounds → get_or present j false ≡ false → P j)
      → All P (missing_data rounds i present)
  unfolding missing_data
  All-missing_data P zero i h = tt
  All-missing_data P (suc rounds) i h =
      let later = All-missing_data P rounds (i + 1) (λ j a b. h j (omega arith) (omega arith)) in
      elim (Bool-cases (get_or present i false)) [
        | inl here ↦ rw here later
        | inr gone ↦ rw gone (h i (omega arith) (omega arith) gone, later)
      ]
