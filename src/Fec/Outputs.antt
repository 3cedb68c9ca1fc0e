-- ===== src/Fec/Outputs.antt =====
-- moonlight-common-go/fec/fec.go: the block size, the outputs and the copied rows of `Reconstruct`.
use moonparty.Base.{
  ℕ, zero, suc, ◌+◌, ◌≤◌, ◌<◌, ◌≡◌, ◌≢◌, ◌∙◌, refl, sym, ap, inl, inr, Bool, true, false, Option,
  none, some, List, [], ◌∷◌, arith, ◌==◌, ◌!=◌, if◌then◌else◌, Bool-cases, length, get_or, set,
  replicate, length-replicate, eq→==, ne→==_false,
}
use moonparty.Base.All.{All, All-and}
use moonparty.Base.Places.{get_or-set_self, get_or-set_ne, length-set}
use moonparty.Fec.Scalar.{Gf, gf_zero}
use moonparty.Fec.Matrix.{Cells}
use moonparty.Fec.Coding.{Sized}
use moonparty.Fec.Codec.{content, block_size, missing_data, outputs_of, copy_rows, put_outputs}
use moonparty.Fec.Erasure.{Between, Between-All, missing_gone}

-- The shards that are present have the size `n`.
abbrev pub PresentSized : ℕ → List (Option (List Gf)) → List Bool → Type 0
PresentSized n shards present =
    (r : ℕ)
    → r < length shards
    → get_or present r false ≡ true
    → length (content (get_or shards r none)) ≡ n

block_size_full :
    (n : ℕ) (shards : List (Option (List Gf))) (present : List Bool)
    → 0 < n
    → PresentSized n shards present
    → block_size n shards present ≡ some n
unfolding block_size
block_size_full n [] present p h = refl
block_size_full n (s ∷ shards) [] p h = refl
block_size_full n (s ∷ shards) (true ∷ present) p h =
    let nonzero : (n == 0) ≡ false = ground arith in
    let differs : (n != 0) ≡ true = ground arith in
    let same : (n != n) ≡ false = ground arith in
    rw (h 0 (omega arith) refl, nonzero, differs, same)
      (block_size_full n shards present p (λ r q. h (suc r) (omega arith)))
block_size_full n (s ∷ shards) (false ∷ present) p h =
    block_size_full n shards present p (λ r q. h (suc r) (omega arith))

pub block_size_lem :
    (n : ℕ) (shards : List (Option (List Gf))) (present : List Bool) (r : ℕ)
    → 0 < n
    → PresentSized n shards present
    → r < length shards
    → get_or present r false ≡ true
    → block_size 0 shards present ≡ some n
unfolding block_size
block_size_lem n [] present r p h l here = absurd (omega arith)
block_size_lem n (s ∷ shards) [] r p h l here = absurd (differ here)
  where
    differ : false ≡ true → ⊥
    differ e = cc
block_size_lem n (s ∷ shards) (true ∷ present) r p h l here =
    rw (h 0 (omega arith) refl)
      (block_size_full n shards present p (λ r q. h (suc r) (omega arith)))
block_size_lem n (s ∷ shards) (false ∷ present) zero p h l here = absurd (differ here)
  where
    differ : false ≡ true → ⊥
    differ e = cc
block_size_lem n (s ∷ shards) (false ∷ present) (suc r) p h l here =
    block_size_lem n shards present r p (λ r q. h (suc r) (omega arith)) (omega arith) here

-- Where fewer shards are missing than there are, one is present.
pub some_present :
    (present : List Bool) (rounds i : ℕ)
    → length (missing_data rounds i present) < rounds
    → (r : ℕ) × (i ≤ r) × (r < i + rounds) × (get_or present r false ≡ true)
some_present present zero i h = absurd (omega arith)
some_present present (suc rounds) i h = elim (Bool-cases (get_or present i false)) [
  | inl here ↦ (i, omega arith, omega arith, here)
  | inr gone ↦
      let h' = rw (missing_gone present rounds i gone) at h in
      let (r, a, b, here) = some_present present rounds (i + 1) (omega arith) in
      (r, omega arith, omega arith, here)
]

-- What may stand in the place of a missing shard: nothing, or a buffer of the size.
abbrev pub Replaceable : ℕ → Option (List Gf) → Type 0
Replaceable n none = Unit
Replaceable n (some s) = length s ≡ n

output_size :
    (n : ℕ) (o : Option (List Gf))
    → Replaceable n o
    → length (elim o [ none ↦ replicate n gf_zero | some s ↦ s ]) ≡ n
output_size n none h = length-replicate n gf_zero
output_size n (some s) h = h

module _ (n : ℕ) (shards : List (Option (List Gf))) where
  pub outputs_of-Sized :
      (missing : List ℕ)
      → All (λ i. Replaceable n (get_or shards i none)) missing
      → Sized n (outputs_of n shards missing)
  unfolding outputs_of
  outputs_of-Sized [] h r p = absurd (omega arith)
  outputs_of-Sized (i ∷ missing) (f, h) zero p = output_size n (get_or shards i none) f
  outputs_of-Sized (i ∷ missing) (f, h) (suc r) p = outputs_of-Sized missing h r (omega arith)

  pub length-outputs_of : (missing : List ℕ) → length (outputs_of n shards missing) ≡ length missing
  unfolding outputs_of
  length-outputs_of [] = refl
  length-outputs_of (i ∷ missing) = ap suc (length-outputs_of missing)

copy_rows_below :
    (i hi lo : ℕ) (missing : List ℕ) (rows : Cells) (r : ℕ)
    → r < i
    → copy_rows i missing rows r ≡ rows r
unfolding copy_rows
copy_rows_below i hi lo [] rows r p = refl
copy_rows_below i hi lo (x ∷ missing) rows r p =
    copy_rows_below (i + 1) hi lo missing (λ r c. if r == i then rows x c else rows r c) r
      (omega arith)
    ∙ rw (ne→==_false r i (λ e. absurd (omega arith)))

-- The rows of the missing shards come to the front.
pub copy_rows_lem :
    (i lo hi : ℕ) (missing : List ℕ) (rows : Cells) (q : ℕ)
    → i ≤ lo
    → Between lo hi missing
    → q < length missing
    → copy_rows i missing rows (i + q) ≡ rows (get_or missing q 0)
unfolding copy_rows
copy_rows_lem i lo hi [] rows q l h p = absurd (omega arith)
copy_rows_lem i lo hi (x ∷ missing) rows zero l (a, b, h) p =
    let e : i + 0 ≡ i = omega arith in
    rw e (
      copy_rows_below (i + 1) hi lo missing (λ r c. if r == i then rows x c else rows r c) i
        (omega arith)
      ∙ rw (eq→== i i refl))
copy_rows_lem i lo hi (x ∷ missing) rows (suc q) l (a, b, h) p =
    let e : i + suc q ≡ i + 1 + q = omega arith in
    rw e (
      copy_rows_lem (i + 1) (suc x) hi missing (λ r c. if r == i then rows x c else rows r c) q
        (omega arith) h (omega arith)
      ∙ later (get_or missing q 0) (item (suc x) hi missing q h (omega arith)))
  where
    item : (lo hi : ℕ) (xs : List ℕ) (q : ℕ) → Between lo hi xs → q < length xs → lo ≤ get_or xs q 0
    item lo hi [] q h p = absurd (omega arith)
    item lo hi (y ∷ ys) zero (a, b, h) p = a
    item lo hi (y ∷ ys) (suc q) (a, b, h) p = omega (arith, item (suc y) hi ys q h (omega arith))

    later : (r : ℕ) → suc x ≤ r → (λ c. if r == i then rows x c else rows r c) ≡ rows r
    later r m = rw (ne→==_false r i (λ e. absurd (omega arith)))

-- The outputs, one for each missing shard.
abbrev pub Outputs : (ℕ → List Gf) → List ℕ → List (List Gf) → Type 0
Outputs g [] outs = Unit
Outputs g (i ∷ missing) [] = ⊥
Outputs g (i ∷ missing) (s ∷ outs) = (s ≡ g i) × Outputs g missing outs

pub put_outputs_other :
    (shards : List (Option (List Gf))) (missing : List ℕ) (outs : List (List Gf)) (r : ℕ)
    → All (λ i. i ≢ r) missing
    → get_or (put_outputs shards missing outs) r none ≡ get_or shards r none
unfolding put_outputs
put_outputs_other shards [] outs r h = refl
put_outputs_other shards (i ∷ missing) [] r h = refl
put_outputs_other shards (i ∷ missing) (s ∷ outs) r (ne, h) =
    put_outputs_other (set shards i (some s)) missing outs r h
    ∙ get_or-set_ne none shards i r (some s) (λ e. ne (sym e))

pub put_outputs_lem :
    (g : ℕ → List Gf) (lo hi : ℕ) (missing : List ℕ) (shards : List (Option (List Gf)))
    (outs : List (List Gf))
    → Between lo hi missing
    → hi ≤ length shards
    → Outputs g missing outs
    → All (λ i. get_or (put_outputs shards missing outs) i none ≡ some (g i)) missing
unfolding put_outputs
put_outputs_lem g lo hi [] shards outs h l o = tt
put_outputs_lem g lo hi (i ∷ missing) shards [] h l o = absurd o
put_outputs_lem g lo hi (i ∷ missing) shards (s ∷ outs) (a, b, h) l (e, o) = (
  put_outputs_other (set shards i (some s)) missing outs i
        (All-and missing (λ j r f. absurd (omega arith)) (Between-All (suc i) hi missing h))
      ∙ get_or-set_self none shards i (some s) (omega arith)
      ∙ ap some e,
  put_outputs_lem g (suc i) hi missing (set shards i (some s)) outs h
      (omega (arith, length-set shards i (some s))) o,
)
