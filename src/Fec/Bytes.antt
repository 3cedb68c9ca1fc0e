-- ===== src/Fec/Bytes.antt =====
-- moonlight-common-go/fec/fec.go: what `mul` and `addmul` make of the bytes of a shard.
use moonparty.Base.{
  ℕ, zero, suc, ◌≡◌, ◌∙◌, refl, sym, ap, inl, inr, Option, some, List, [], ◌∷◌, arith, ◌==◌,
  if◌then◌else◌, Bool-cases, length, get_or, replicate, length-replicate,
}
use moonparty.Fec.Scalar.{
  Gf, gf_zero, ◌⊕◌, ◌⊗◌, zero-mul, mul-zero, zero-add, add-zero, eq_of_gf_eq,
}
use moonparty.Fec.Matrix.{is_zero}
use moonparty.Fec.Codec.{mul_bytes, mul, addmul_bytes, addmul_shard}

abbrev pub byte : List Gf → ℕ → Gf
byte s i = get_or s i gf_zero

abbrev pub shard_at : List (List Gf) → ℕ → List Gf
shard_at shards r = get_or shards r []

-- A result with a property.
abbrev pub Gives : {A : Type 0} → Option A → (A → Type 0) → Type 0
Gives {A} o P = (a : A) × (o ≡ some a) × P a

byte-replicate : (n i : ℕ) → byte (replicate n gf_zero) i ≡ gf_zero
byte-replicate zero i = refl
byte-replicate (suc n) zero = refl
byte-replicate (suc n) (suc i) = byte-replicate n i

-- The bytes after a loop: those of `f` at each place, as many as before.
abbrev pub Coded : List Gf → (ℕ → Gf) → List Gf → Type 0
Coded dst f out = (length out ≡ length dst) × ((i : ℕ) → byte out i ≡ f i)

mul_bytes_lem :
    (dst src : List Gf) (c : Gf)
    → length src ≡ length dst
    → Gives (mul_bytes dst src c) (Coded dst (λ i. c ⊗ byte src i))
unfolding mul_bytes
mul_bytes_lem [] [] c l = ([], refl, (refl, λ i. sym (mul-zero c)))
mul_bytes_lem [] (s ∷ src) c l = absurd (omega arith)
mul_bytes_lem (d ∷ dst) [] c l = absurd (omega arith)
mul_bytes_lem (d ∷ dst) (s ∷ src) c l =
    let (out, e, (n, h)) = mul_bytes_lem dst src c (omega arith) in
    (c ⊗ s ∷ out, rw e, (ap suc n, bytes out h))
  where
    bytes :
        (out : List Gf)
        → ((i : ℕ) → byte out i ≡ c ⊗ byte src i)
        → (i : ℕ) → byte (c ⊗ s ∷ out) i ≡ c ⊗ byte (s ∷ src) i
    bytes out h zero = refl
    bytes out h (suc i) = h i

mul_lem :
    (dst src : List Gf) (c : Gf)
    → length src ≡ length dst
    → Gives (mul dst src c) (Coded dst (λ i. c ⊗ byte src i))
unfolding mul
mul_lem dst src c l = elim (Bool-cases (is_zero c)) [
  | inl z ↦ (
    replicate (length dst) gf_zero,
    rw z,
    (
      length-replicate (length dst) gf_zero,
      λ i.
          byte-replicate (length dst) i
          ∙ sym (zero-mul (byte src i))
          ∙ ap (λ t. t ⊗ byte src i) (sym (eq_of_gf_eq c gf_zero z)),
    ),
  )
  | inr nz ↦ let (out, e, h) = mul_bytes_lem dst src c l in (out, rw nz e, h)
]

addmul_bytes_lem :
    (dst src : List Gf) (c : Gf)
    → length src ≡ length dst
    → Gives (addmul_bytes dst src c) (Coded dst (λ i. byte dst i ⊕ c ⊗ byte src i))
unfolding addmul_bytes
addmul_bytes_lem [] [] c l = ([], refl, (refl, λ i. sym (zero-add _ ∙ mul-zero c)))
addmul_bytes_lem [] (s ∷ src) c l = absurd (omega arith)
addmul_bytes_lem (d ∷ dst) [] c l = absurd (omega arith)
addmul_bytes_lem (d ∷ dst) (s ∷ src) c l =
    let (out, e, (n, h)) = addmul_bytes_lem dst src c (omega arith) in
    ((d ⊕ c ⊗ s) ∷ out, rw e, (ap suc n, bytes out h))
  where
    bytes :
        (out : List Gf)
        → ((i : ℕ) → byte out i ≡ byte dst i ⊕ c ⊗ byte src i)
        → (i : ℕ) → byte ((d ⊕ c ⊗ s) ∷ out) i ≡ byte (d ∷ dst) i ⊕ c ⊗ byte (s ∷ src) i
    bytes out h zero = refl
    bytes out h (suc i) = h i

addmul_shard_lem :
    (dst src : List Gf) (c : Gf)
    → length src ≡ length dst
    → Gives (addmul_shard dst src c) (Coded dst (λ i. byte dst i ⊕ c ⊗ byte src i))
unfolding addmul_shard
addmul_shard_lem dst src c l = elim (Bool-cases (is_zero c)) [
  | inl z ↦ (
    dst,
    rw z,
    (
      refl,
      λ i.
          sym (add-zero (byte dst i))
          ∙ ap (◌⊕◌ (byte dst i)) (
              sym (zero-mul (byte src i))
              ∙ ap (λ t. t ⊗ byte src i) (sym (eq_of_gf_eq c gf_zero z))),
    ),
  )
  | inr nz ↦ let (out, e, h) = addmul_bytes_lem dst src c l in (out, rw nz e, h)
]

-- What an output has before the input `c`: the first input writes over it.
abbrev pub before : ℕ → List Gf → ℕ → Gf
before c dst i = if c == 0 then gf_zero else byte dst i

pub code_output_lem :
    (dst src : List Gf) (c : ℕ) (a : Gf)
    → length src ≡ length dst
    → Gives
        (if c == 0 then mul dst src a else addmul_shard dst src a)
        (Coded dst (λ i. before c dst i ⊕ a ⊗ byte src i))
code_output_lem dst src c a l = elim (Bool-cases (c == 0)) [
  | inl z ↦
      rw z
        (let (out, e, (n, h)) = mul_lem dst src a l in (out, e, (n, λ i. h i ∙ sym (zero-add _))))
  | inr nz ↦ rw nz (addmul_shard_lem dst src a l)
]
