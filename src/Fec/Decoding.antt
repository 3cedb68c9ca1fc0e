-- ===== src/Fec/Decoding.antt =====
-- moonlight-common-go/fec/fec.go: the parity shards that `Reconstruct` takes.
use moonparty.Base.{
  ℕ, zero, suc, ◌+◌, ◌-◌, ◌≤◌, ◌<◌, ◌≡◌, refl, ap, inl, inr, Bool, true, false, List, ◌∷◌, arith,
  ◌==◌, Bool-cases, length, get_or,
}
use moonparty.Base.All.{All}
use moonparty.Fec.Codec.{missing_data, available_parity}
use moonparty.Fec.Erasure.{Between, Between-weaken, missing_here, missing_gone}

module _ (present : List Bool) (k : ℕ) where
  pub available_here :
      (rounds i w : ℕ)
      → get_or present i false ≡ true
      → available_parity (suc rounds) i k (suc w) present
        ≡ (i - k) ∷ available_parity rounds (i + 1) k w present
  unfolding available_parity
  available_here rounds i w h =
      let e : suc w - 1 ≡ w = omega arith in
      let f : (suc w == 0) ≡ false = ground arith in rw (f, h, e)

  pub available_gone :
      (rounds i w : ℕ)
      → get_or present i false ≡ false
      → available_parity (suc rounds) i k (suc w) present
        ≡ available_parity rounds (i + 1) k (suc w) present
  unfolding available_parity
  available_gone rounds i w h = let f : (suc w == 0) ≡ false = ground arith in rw (f, h)

  -- The parity shards at hand, with what holds of them, are ascending and below `hi`.
  pub All-available_parity :
      (P : ℕ → Type 0) (rounds i w : ℕ)
      → k ≤ i
      → ((j : ℕ) → i ≤ k + j → k + j < i + rounds → get_or present (k + j) false ≡ true → P j)
      → All P (available_parity rounds i k w present)
  unfolding available_parity
  All-available_parity P zero i w l h = tt
  All-available_parity P (suc rounds) i zero l h = tt
  All-available_parity P (suc rounds) i (suc w) l h =
      let later = λ (v : ℕ).
        All-available_parity P rounds (i + 1) v (omega arith)
          (λ j a b. h j (omega arith) (omega arith)) in
      elim (Bool-cases (get_or present i false)) [
        | inl here ↦
            let e : k + (i - k) ≡ i = omega arith in
            rw (available_here rounds i w here)
              (h (i - k) (omega arith) (omega arith) (rw e here), later w)
        | inr gone ↦ rw (available_gone rounds i w gone) (later (suc w))
      ]

  pub available_parity-Between :
      (rounds i w hi : ℕ)
      → k ≤ i
      → i + rounds ≡ k + hi
      → Between (i - k) hi (available_parity rounds i k w present)
  unfolding available_parity
  available_parity-Between zero i w hi l e = tt
  available_parity-Between (suc rounds) i zero hi l e = tt
  available_parity-Between (suc rounds) i (suc w) hi l e =
      elim (Bool-cases (get_or present i false)) [
        | inl here ↦ rw (available_here rounds i w here) (
          omega arith,
          omega arith,
          Between-weaken (i + 1 - k) (suc (i - k)) hi _ (omega arith)
              (available_parity-Between rounds (i + 1) w hi (omega arith) (omega arith)),
        )
        | inr gone ↦ rw (available_gone rounds i w gone) (
            Between-weaken (i + 1 - k) (i - k) hi _ (omega arith)
              (available_parity-Between rounds (i + 1) (suc w) hi (omega arith) (omega arith)))
      ]

  -- Enough parity shards are at hand where no more shards are missing than `rounds - w`.
  pub length-available_parity :
      (rounds i w : ℕ)
      → w + length (missing_data rounds i present) ≤ rounds
      → length (available_parity rounds i k w present) ≡ w
  unfolding available_parity missing_data
  length-available_parity zero i w l = omega arith
  length-available_parity (suc rounds) i zero l = refl
  length-available_parity (suc rounds) i (suc w) l = elim (Bool-cases (get_or present i false)) [
    | inl here ↦
        let l' = rw (missing_here present rounds i here) at l in
        rw (available_here rounds i w here)
          (ap suc (length-available_parity rounds (i + 1) w (omega arith)))
    | inr gone ↦
        let l' = rw (missing_gone present rounds i gone) at l in
        rw (available_gone rounds i w gone)
          (length-available_parity rounds (i + 1) (suc w) (omega arith))
  ]

-- The missing shards of a part and of the rest.
pub length-missing_data :
    (present : List Bool) (a b n i : ℕ)
    → n ≡ a + b
    → length (missing_data n i present)
      ≡ length (missing_data a i present) + length (missing_data b (i + a) present)
unfolding missing_data
length-missing_data present zero b n i e =
    let f : n ≡ b = omega arith in let g : i + 0 ≡ i = omega arith in rw (f, g) (omega arith)
length-missing_data present (suc a) b zero i e = absurd (omega arith)
length-missing_data present (suc a) b (suc n) i e =
    let g : i + 1 + a ≡ i + suc a = omega arith in
    let later = rw g at (length-missing_data present a b n (i + 1) (omega arith)) in
    elim (Bool-cases (get_or present i false)) [
      | inl here ↦ rw (missing_here present n i here, missing_here present a i here) later
      | inr gone ↦
          rw (missing_gone present n i gone, missing_gone present a i gone) (omega (arith, later))
    ]
