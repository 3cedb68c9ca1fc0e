-- ===== src/Fec/Polynomial.antt =====
-- moonlight-common-go/fec/fec.go: the product of the tables is the product of polynomials.
use Prim.Native.Nat.{bit_xor}
use moonparty.Base.{
  ℕ, zero, suc, ◌+◌, ◌%◌, ◌/◌, ltb, ltb→lt, ◌<◌, ◌≡◌, true, ◌∙◌, refl, sym, ap, inl, inr, arith,
  ◌==◌, if◌then◌else◌, eq-or-ne,
}
use moonparty.Base.Bits.{all_below, all_below_sound, all_below_eq}
use moonparty.Fec.Gf.{gf_tables, gf_exp, gf_mul}
use moonparty.Fec.Tables.{times_x, gf_exp_zero}
use moonparty.Fec.Field.{
  zero-gf_mul, gf_mul_comm, gf_mul_assoc, one-gf_mul, gf_mul-gf_exp_suc, gf_mul-bit_xor,
}

gf_exp_one : gf_exp 1 ≡ 2
unfolding gf_exp gf_tables
gf_exp_one = refl

-- The product with x is the product with the byte 2.
two-gf_mul : (y : ℕ) → y < 256 → gf_mul 2 y ≡ times_x y
two-gf_mul y p =
    let e = gf_mul-gf_exp_suc 0 (omega arith) y p in
    ap (λ x. gf_mul x y) (sym gf_exp_one)
    ∙ e
    ∙ ap times_x (ap (λ x. gf_mul x y) gf_exp_zero ∙ one-gf_mul y p)

gf_mul-times_x : (a y : ℕ) → a < 256 → y < 256 → gf_mul (times_x a) y ≡ gf_mul a (times_x y)
gf_mul-times_x a y p q =
    rw (← two-gf_mul a p, ← two-gf_mul y q, gf_mul_comm 2 a) (gf_mul_assoc a 2 y p (omega arith) q)

-- The product of polynomials over the field of two elements, modulo x ^ 8 + x ^ 4 + x ^ 3 + x ^ 2 + 1,
-- by shifts and additions: bit i of a byte is the coefficient of x ^ i.
unfoldable pub polynomial_mul : ℕ → ℕ → ℕ → ℕ
polynomial_mul zero x y = 0
polynomial_mul (suc n) x y =
    bit_xor (if x % 2 == 1 then y else 0) (polynomial_mul n (x / 2) (times_x y))

abbrev power_of_two : ℕ → ℕ
power_of_two zero = 1
power_of_two (suc n) = power_of_two n + power_of_two n

even_table : all_below 256 (λ x. bit_xor (x % 2) (times_x (x / 2)) == x) ≡ true
unfolding all_below times_x
even_table = refl

times_x_small : all_below 256 (λ x. ltb (times_x x) 256) ≡ true
unfolding all_below times_x
times_x_small = refl

times_x-lt : (x : ℕ) → x < 256 → times_x x < 256
times_x-lt x h = ltb→lt _ _ (all_below_sound 256 (λ y. ltb (times_x y) 256) x times_x_small h)

even_part : (x : ℕ) → x < 256 → x ≡ bit_xor (x % 2) (times_x (x / 2))
even_part x h =
    sym (all_below_eq 256 (λ x. bit_xor (x % 2) (times_x (x / 2))) (λ x. x) x even_table h)

low_bit-gf_mul : (x y : ℕ) → y < 256 → gf_mul (x % 2) y ≡ (if x % 2 == 1 then y else 0)
low_bit-gf_mul x y h = elim (eq-or-ne (x % 2) 1) [
  | inl e ↦ rw e (one-gf_mul y h)
  | inr ne ↦ let e : x % 2 ≡ 0 = omega arith in rw e (zero-gf_mul y)
]

gf_mul-polynomial_mul :
    (n x y : ℕ)
    → x < power_of_two n
    → power_of_two n < 257
    → y < 256
    → gf_mul x y ≡ polynomial_mul n x y
unfolding polynomial_mul
gf_mul-polynomial_mul zero zero y p k q = zero-gf_mul y
gf_mul-polynomial_mul zero (suc x) y p k q = absurd (omega arith)
gf_mul-polynomial_mul (suc n) x y p k q =
    let small : x < 256 = omega arith in
    ap (λ z. gf_mul z y) (even_part x small)
    ∙ gf_mul_comm (bit_xor (x % 2) (times_x (x / 2))) y
    ∙ gf_mul-bit_xor y (x % 2) (times_x (x / 2)) q (omega arith) (times_x-lt (x / 2) (omega arith))
    ∙ rw
        (
          gf_mul_comm y (x % 2),
          gf_mul_comm y (times_x (x / 2)),
          low_bit-gf_mul x y q,
          gf_mul-times_x (x / 2) y (omega arith) q,
        )
        (ap (bit_xor (if x % 2 == 1 then y else 0)) (
          gf_mul-polynomial_mul n (x / 2) (times_x y) (omega arith) (omega arith) (times_x-lt y q)))

-- The product of two bytes, which the code reads in its table, is the product of the polynomials
-- that they stand for, modulo the polynomial of the code.
pub gf_mul-eq-polynomial_mul : (x y : ℕ) → x < 256 → y < 256 → gf_mul x y ≡ polynomial_mul 8 x y
gf_mul-eq-polynomial_mul x y p q = gf_mul-polynomial_mul 8 x y p (omega arith) q
