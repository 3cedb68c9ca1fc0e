-- ===== src/Fec/Scalar.antt =====
-- moonlight-common-go/fec/fec.go: the type `gf`, a byte, with the arithmetic of the field.
use Prim.Native.Nat.{bit_xor}
use mathlib.Core.HLevel.{Σ_prop_path}
use native.Mathlib.Bridge.{le_prop}
use moonparty.Base.{
  ℕ, ◌%◌, ◌<◌, ◌≡◌, ◌≢◌, ◌⊎◌, inl, inr, Bool, true, false, ◌∙◌, sym, ap, arith, ◌==◌, eq-or-ne,
  ==→eq,
}
use moonparty.Base.Bits.{bit_xor-lt, bit_xor_comm, bit_xor_assoc, bit_xor_self, zero-bit_xor}
use moonparty.Fec.Gf.{gf_mul, gf_inverse}
use moonparty.Fec.Tables.{gf_inverse_zero}
use moonparty.Fec.Field.{
  gf_mul-lt, gf_mul_comm, gf_mul_assoc, one-gf_mul, zero-gf_mul, gf_mul-bit_xor, gf_inverse-lt,
  gf_inverse-gf_mul,
}

-- `gf`, which is `uint8`.
abbrev pub Gf : Type 0
Gf = (value : ℕ) × (value < 256)

pub Gf-ext : (a b : Gf) → a.0 ≡ b.0 → a ≡ b
Gf-ext a b e = Σ_prop_path (λ n. le_prop) e

abbrev pub gf_of : (n : ℕ) → n < 256 → Gf
gf_of n h = (n, h)

-- `uint8(n)`.
unfoldable pub to_gf : ℕ → Gf
to_gf n = (n % 256, omega arith)

unfoldable pub gf_zero : Gf
gf_zero = (0, omega arith)

unfoldable pub gf_one : Gf
gf_one = (1, omega arith)

infixl 65 ◌⊕◌
infixl 70 ◌⊗◌
-- `^`.
unfoldable pub ◌⊕◌ : Gf → Gf → Gf
a ⊕ b = (bit_xor a.0 b.0, bit_xor-lt a.0 b.0 a.1 b.1)

-- `gfMul`.
unfoldable pub ◌⊗◌ : Gf → Gf → Gf
a ⊗ b = (gf_mul a.0 b.0, gf_mul-lt a.0 b.0 a.1 b.1)

pub inverse_small : (a : ℕ) → a < 256 → gf_inverse a < 256
inverse_small a h = elim (eq-or-ne a 0) [
  | inl z ↦ rw (z, gf_inverse_zero) (omega arith)
  | inr nz ↦ gf_inverse-lt a (omega arith) h
]

-- `gfInverse[a]`.
unfoldable pub inverse : Gf → Gf
inverse a = (gf_inverse a.0, inverse_small a.0 a.1)

abbrev pub gf_eq : Gf → Gf → Bool
gf_eq a b = a.0 == b.0

pub add_comm : (a b : Gf) → a ⊕ b ≡ b ⊕ a
unfolding ◌⊕◌
add_comm a b = Gf-ext _ _ (bit_xor_comm a.0 b.0)

pub add_assoc : (a b c : Gf) → a ⊕ b ⊕ c ≡ a ⊕ (b ⊕ c)
unfolding ◌⊕◌
add_assoc a b c = Gf-ext _ _ (bit_xor_assoc a.0 b.0 c.0)

pub zero-add : (a : Gf) → gf_zero ⊕ a ≡ a
unfolding ◌⊕◌ gf_zero
zero-add a = Gf-ext _ _ (zero-bit_xor a.0)

pub add-zero : (a : Gf) → a ⊕ gf_zero ≡ a
add-zero a = add_comm a gf_zero ∙ zero-add a

pub add_self : (a : Gf) → a ⊕ a ≡ gf_zero
unfolding ◌⊕◌ gf_zero
add_self a = Gf-ext _ _ (bit_xor_self a.0)

pub mul_comm : (a b : Gf) → a ⊗ b ≡ b ⊗ a
unfolding ◌⊗◌
mul_comm a b = Gf-ext _ _ (gf_mul_comm a.0 b.0)

pub mul_assoc : (a b c : Gf) → a ⊗ b ⊗ c ≡ a ⊗ (b ⊗ c)
unfolding ◌⊗◌
mul_assoc a b c = Gf-ext _ _ (gf_mul_assoc a.0 b.0 c.0 a.1 b.1 c.1)

pub one-mul : (a : Gf) → gf_one ⊗ a ≡ a
unfolding ◌⊗◌ gf_one
one-mul a = Gf-ext _ _ (one-gf_mul a.0 a.1)

pub zero-mul : (a : Gf) → gf_zero ⊗ a ≡ gf_zero
unfolding ◌⊗◌ gf_zero
zero-mul a = Gf-ext _ _ (zero-gf_mul a.0)

pub mul-one : (a : Gf) → a ⊗ gf_one ≡ a
mul-one a = mul_comm a gf_one ∙ one-mul a

pub mul-zero : (a : Gf) → a ⊗ gf_zero ≡ gf_zero
mul-zero a = mul_comm a gf_zero ∙ zero-mul a

pub mul-add : (a b c : Gf) → a ⊗ (b ⊕ c) ≡ a ⊗ b ⊕ a ⊗ c
unfolding ◌⊗◌ ◌⊕◌
mul-add a b c = Gf-ext _ _ (gf_mul-bit_xor a.0 b.0 c.0 a.1 b.1 c.1)

pub inverse-mul : (a : Gf) → a ≢ gf_zero → inverse a ⊗ a ≡ gf_one
unfolding ◌⊗◌ inverse gf_one gf_zero
inverse-mul a ne = Gf-ext _ _ (gf_inverse-gf_mul a.0 (positive (eq-or-ne a.0 0)) a.1)
  where
    positive : (a.0 ≡ 0) ⊎ (a.0 ≢ 0) → 0 < a.0
    positive (inl e) = absurd (ne (Gf-ext a gf_zero e))
    positive (inr n) = omega arith

pub add-mul : (a b c : Gf) → (a ⊕ b) ⊗ c ≡ a ⊗ c ⊕ b ⊗ c
add-mul a b c = mul_comm (a ⊕ b) c ∙ mul-add c a b ∙ simp (mul_comm)

pub add_left_comm : (a b c : Gf) → a ⊕ (b ⊕ c) ≡ b ⊕ (a ⊕ c)
add_left_comm a b c = sym (add_assoc a b c) ∙ ap (λ t. t ⊕ c) (add_comm a b) ∙ add_assoc b a c

pub mul_left_comm : (a b c : Gf) → a ⊗ (b ⊗ c) ≡ b ⊗ (a ⊗ c)
mul_left_comm a b c = sym (mul_assoc a b c) ∙ ap (λ t. t ⊗ c) (mul_comm a b) ∙ mul_assoc b a c

-- A sum cancels where it stands twice.
pub add_twice : (a b : Gf) → a ⊕ (a ⊕ b) ≡ b
add_twice a b = sym (add_assoc a a b) ∙ ap (λ t. t ⊕ b) (add_self a) ∙ zero-add b

pub ruleset sums = (add_assoc, add_comm, add_left_comm, add_self, add_twice, zero-add, add-zero)

pub ruleset products = (mul_assoc, mul_comm, mul_left_comm, one-mul, mul-one, zero-mul, mul-zero)

pub eq_of_add-zero : (a b : Gf) → a ⊕ b ≡ gf_zero → a ≡ b
eq_of_add-zero a b e = sym (zero-add a) ∙ ap (λ t. t ⊕ a) (sym e) ∙ simp sums

-- There are no divisors of zero.
pub eq-zero_of_mul : (a b : Gf) → a ≢ gf_zero → a ⊗ b ≡ gf_zero → b ≡ gf_zero
eq-zero_of_mul a b ne e =
    sym (one-mul b)
    ∙ ap (λ t. t ⊗ b) (sym (inverse-mul a ne))
    ∙ mul_assoc (inverse a) a b
    ∙ ap (◌⊗◌ (inverse a)) e
    ∙ mul-zero (inverse a)

pub Gf-cases : (a b : Gf) → (a ≡ b) ⊎ (a ≢ b)
Gf-cases a b = elim (eq-or-ne a.0 b.0) [
  | inl e ↦ inl (Gf-ext a b e)
  | inr ne ↦ inr (λ e. ne (ap (λ t. t.0) e))
]

pub one-ne-zero : gf_one ≢ gf_zero
unfolding gf_one gf_zero
one-ne-zero e = let f = ap (λ t. t.0) e in absurd (omega (arith, f))

pub inverse_one : inverse gf_one ≡ gf_one
inverse_one = sym (mul-one (inverse gf_one)) ∙ inverse-mul gf_one one-ne-zero

pub eq_of_gf_eq : (a b : Gf) → gf_eq a b ≡ true → a ≡ b
eq_of_gf_eq a b h = Gf-ext a b (==→eq a.0 b.0 h)

pub ne_of_gf_eq : (a b : Gf) → gf_eq a b ≡ false → a ≢ b
ne_of_gf_eq a b h e = let f = ap (λ t. t.0) e in ground arith
