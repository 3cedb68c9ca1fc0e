-- ===== src/Fec/Field.antt =====
-- moonlight-common-go/fec/fec.go: bytes with `^` and `gfMul` are a field.
use Prim.Native.Nat.{bit_xor}
use moonparty.Base.{
  suc_plus, ℕ, zero, suc, ◌+◌, ◌-◌, ◌%◌, ◌<◌, ◌≡◌, true, ◌∙◌, refl, sym, ap, inl, inr, arith, ◌==◌,
  eq-or-ne,
}
use moonparty.Base.Bits.{bit_xor-lt, bit_xor_self, all_below, all_below_sound, all_below_eq}
use moonparty.Fec.Gf.{gf_exp, gf_log, gf_inverse, gf_mul, init_mul_table}
use moonparty.Fec.Tables.{
  times_x, modnn-mod, gf_exp_zero, gf_exp_size, gf_exp_bounds, gf_log-gf_exp, gf_exp_suc, gf_log-lt,
  gf_exp-gf_log, gf_inverse-gf_exp,
}

pub zero-gf_mul : (y : ℕ) → gf_mul 0 y ≡ 0
unfolding gf_mul init_mul_table
zero-gf_mul y = refl

pub gf_mul-zero : (x : ℕ) → gf_mul x 0 ≡ 0
unfolding gf_mul init_mul_table
gf_mul-zero x = ground arith

pub gf_mul_logs :
    (x y : ℕ)
    → 0 < x
    → x < 256
    → 0 < y
    → y < 256
    → gf_mul x y ≡ gf_exp ((gf_log x + gf_log y) % 255)
unfolding gf_mul init_mul_table
gf_mul_logs x y px sx py sy =
    ground (arith, modnn-mod (gf_log x + gf_log y), gf_log-lt x px sx, gf_log-lt y py sy)

pub gf_mul_comm : (x y : ℕ) → gf_mul x y ≡ gf_mul y x
unfolding gf_mul init_mul_table
gf_mul_comm x y =
    let e : gf_log x + gf_log y ≡ gf_log y + gf_log x = omega arith in rw e (ground arith)

-- A product of powers is the power of the sum, modulo the order of the group.
pub gf_mul_powers :
    (i j : ℕ) → i < 255 → j < 255 → gf_mul (gf_exp i) (gf_exp j) ≡ gf_exp ((i + j) % 255)
gf_mul_powers i j hi hj =
    let a = gf_exp_bounds i (omega arith) in
    let b = gf_exp_bounds j (omega arith) in
    rw (gf_mul_logs (gf_exp i) (gf_exp j) a.0 a.1 b.0 b.1, gf_log-gf_exp i hi, gf_log-gf_exp j hj)

pub gf_mul-lt : (x y : ℕ) → x < 256 → y < 256 → gf_mul x y < 256
gf_mul-lt zero y p q = rw (zero-gf_mul y) (omega arith)
gf_mul-lt (suc x) zero p q = rw (gf_mul-zero (suc x)) (omega arith)
gf_mul-lt (suc x) (suc y) p q =
    rw (gf_mul_logs (suc x) (suc y) (omega arith) p (omega arith) q)
      (gf_exp_bounds ((gf_log (suc x) + gf_log (suc y)) % 255) (omega arith)).1

-- A byte is 0 or a power.
pub byte_cases :
    (P : ℕ → Type 0) → P 0 → ((i : ℕ) → i < 255 → P (gf_exp i)) → (x : ℕ) → x < 256 → P x
byte_cases P z e zero h = z
byte_cases P z e (suc x) h =
    rw (gf_exp-gf_log (suc x) (omega arith) h) at
      (e (gf_log (suc x)) (gf_log-lt (suc x) (omega arith) h))

pub gf_mul_assoc :
    (x y z : ℕ) → x < 256 → y < 256 → z < 256 → gf_mul (gf_mul x y) z ≡ gf_mul x (gf_mul y z)
gf_mul_assoc x y z p q r =
    byte_cases (λ x. gf_mul (gf_mul x y) z ≡ gf_mul x (gf_mul y z))
      (rw (zero-gf_mul y, zero-gf_mul z, zero-gf_mul (gf_mul y z)))
      (λ i hi.
        byte_cases (λ y. gf_mul (gf_mul (gf_exp i) y) z ≡ gf_mul (gf_exp i) (gf_mul y z))
          (rw (gf_mul-zero (gf_exp i), zero-gf_mul z, gf_mul-zero (gf_exp i)))
          (λ j hj.
            byte_cases
              (λ z.
                gf_mul (gf_mul (gf_exp i) (gf_exp j)) z ≡ gf_mul (gf_exp i) (gf_mul (gf_exp j) z))
              (rw (
                gf_mul-zero (gf_mul (gf_exp i) (gf_exp j)),
                gf_mul-zero (gf_exp j),
                gf_mul-zero (gf_exp i),
              ))
              (assoc_powers i j hi hj) z r)
          y q)
      x p
  where
    assoc_powers :
        (i j : ℕ)
        → i < 255
        → j < 255
        → (k : ℕ) → k < 255
        → gf_mul (gf_mul (gf_exp i) (gf_exp j)) (gf_exp k)
          ≡ gf_mul (gf_exp i) (gf_mul (gf_exp j) (gf_exp k))
    assoc_powers i j hi hj k hk =
        rw
          (
            gf_mul_powers i j hi hj,
            gf_mul_powers j k hj hk,
            gf_mul_powers ((i + j) % 255) k (omega arith) hk,
            gf_mul_powers i ((j + k) % 255) hi (omega arith),
          )
          (ap gf_exp (omega arith))

pub one-gf_mul : (x : ℕ) → x < 256 → gf_mul 1 x ≡ x
one-gf_mul =
    byte_cases (λ x. gf_mul 1 x ≡ x) (gf_mul-zero 1)
      (λ i hi.
        let e : (0 + i) % 255 ≡ i = omega arith in
        rw gf_exp_zero at (gf_mul_powers 0 i (omega arith) hi ∙ ap gf_exp e))

module _ (x : ℕ) (pos : 0 < x) (small : x < 256) where
  pub gf_inverse-lt : gf_inverse x < 256
  gf_inverse-lt =
      rw (gf_inverse-gf_exp x pos small) (gf_exp_bounds (255 - gf_log x) (omega arith)).1

  pub gf_inverse-gf_mul : gf_mul (gf_inverse x) x ≡ 1
  gf_inverse-gf_mul = elim (eq-or-ne (gf_log x) 0) [
    | inl e ↦
        rw (gf_inverse-gf_exp x pos small, e, gf_exp_size)
          (one-gf_mul x small ∙ sym (gf_exp-gf_log x pos small) ∙ ap gf_exp e ∙ gf_exp_zero)
    | inr ne ↦
        let p = gf_mul_powers (255 - gf_log x) (gf_log x) (omega arith) (gf_log-lt x pos small) in
        rw (gf_inverse-gf_exp x pos small) (
          ap (gf_mul (gf_exp (255 - gf_log x))) (sym (gf_exp-gf_log x pos small))
          ∙ p
          ∙ ap gf_exp (omega (arith, gf_log-lt x pos small))
          ∙ gf_exp_zero)
  ]

times_x_table :
    all_below 256
      (λ a. all_below 256 (λ b. times_x (bit_xor a b) == bit_xor (times_x a) (times_x b)))
    ≡ true
unfolding all_below times_x
times_x_table = refl

times_x-bit_xor :
    (a b : ℕ) → a < 256 → b < 256 → times_x (bit_xor a b) ≡ bit_xor (times_x a) (times_x b)
times_x-bit_xor a b p q =
    let row =
      all_below_sound 256
        (λ a. all_below 256 (λ b. times_x (bit_xor a b) == bit_xor (times_x a) (times_x b))) a
        times_x_table p in
    all_below_eq 256 (λ b. times_x (bit_xor a b)) (λ b. bit_xor (times_x a) (times_x b)) b row q

times_x_zero : times_x 0 ≡ 0
unfolding times_x
times_x_zero = refl

-- The next power multiplies by one x more.
pub gf_mul-gf_exp_suc :
    (i : ℕ)
    → i < 254
    → (y : ℕ) → y < 256
    → gf_mul (gf_exp (i + 1)) y ≡ times_x (gf_mul (gf_exp i) y)
gf_mul-gf_exp_suc i h =
    byte_cases (λ y. gf_mul (gf_exp (i + 1)) y ≡ times_x (gf_mul (gf_exp i) y))
      (rw (gf_mul-zero (gf_exp (i + 1)), gf_mul-zero (gf_exp i)) (sym times_x_zero))
      (λ j hj.
        rw (gf_mul_powers (i + 1) j (omega arith) hj, gf_mul_powers i j (omega arith) hj)
          (exp_next ((i + j) % 255) ((i + 1 + j) % 255) (omega arith) (omega arith)))
  where
    exp_next : (a b : ℕ) → a < 255 → b ≡ (a + 1) % 255 → gf_exp b ≡ times_x (gf_exp a)
    exp_next a b p e = elim (eq-or-ne a 254) [
      | inl last ↦
          let z : b ≡ 0 = omega arith in
          let f : a + 1 ≡ 255 = omega arith in
          ap gf_exp z ∙ gf_exp_zero ∙ sym gf_exp_size ∙ ap gf_exp (sym f) ∙ gf_exp_suc a p
      | inr more ↦ let f : b ≡ a + 1 = omega arith in ap gf_exp f ∙ gf_exp_suc a p
    ]

gf_mul_powers-bit_xor :
    (i : ℕ)
    → i < 255
    → (y z : ℕ) → y < 256
    → z < 256
    → gf_mul (gf_exp i) (bit_xor y z) ≡ bit_xor (gf_mul (gf_exp i) y) (gf_mul (gf_exp i) z)
gf_mul_powers-bit_xor zero h y z p q =
    rw (gf_exp_zero, one-gf_mul (bit_xor y z) (bit_xor-lt y z p q), one-gf_mul y p, one-gf_mul z q)
gf_mul_powers-bit_xor (suc i) h y z p q =
    let low : i < 254 = omega arith in
    rw
      (
        suc_plus i,
        gf_mul-gf_exp_suc i low (bit_xor y z) (bit_xor-lt y z p q),
        gf_mul-gf_exp_suc i low y p,
        gf_mul-gf_exp_suc i low z q,
        gf_mul_powers-bit_xor i (omega arith) y z p q,
      )
      (times_x-bit_xor (gf_mul (gf_exp i) y) (gf_mul (gf_exp i) z)
        (gf_mul-lt (gf_exp i) y (gf_exp_bounds i (omega arith)).1 p)
        (gf_mul-lt (gf_exp i) z (gf_exp_bounds i (omega arith)).1 q))

pub gf_mul-bit_xor :
    (x y z : ℕ)
    → x < 256
    → y < 256
    → z < 256
    → gf_mul x (bit_xor y z) ≡ bit_xor (gf_mul x y) (gf_mul x z)
gf_mul-bit_xor x y z p q r =
    byte_cases (λ x. gf_mul x (bit_xor y z) ≡ bit_xor (gf_mul x y) (gf_mul x z))
      (rw (zero-gf_mul (bit_xor y z), zero-gf_mul y, zero-gf_mul z) (sym (bit_xor_self 0)))
      (λ i hi. gf_mul_powers-bit_xor i hi y z q r) x p
