-- ===== src/Fec/Tables.antt =====
-- What the tables of moonlight-common-go/fec/fec.go hold, checked at every cell.
use Prim.Native.Nat.{bit_xor}
use moonparty.Base.{
  ℕ, ◌+◌, ◌-◌, ◌*◌, ◌%◌, ◌<◌, ◌&&◌, true, ◌≡◌, refl, arith, leb, ltb, ltb→lt, ◌==◌, if◌then◌else◌,
}
use moonparty.Base.Bits.{all_below, all_below_sound, all_below_eq}
use moonparty.Fec.Gf.{gf_tables, gf_exp, gf_log, gf_inverse, modnn}

-- The product with x, modulo x ^ 8 + x ^ 4 + x ^ 3 + x ^ 2 + 1.
unfoldable pub times_x : ℕ → ℕ
times_x a = if leb 128 a then bit_xor (2 * a - 256) 29 else 2 * a

log_range : all_below 255 (λ x. ltb (gf_log (x + 1)) 255) ≡ true
unfolding all_below gf_log gf_tables
log_range = refl

log_exact : all_below 255 (λ x. gf_exp (gf_log (x + 1)) == x + 1) ≡ true
unfolding all_below gf_exp gf_log gf_tables
log_exact = refl

exp_range : all_below 256 (λ i. ltb 0 (gf_exp i) && ltb (gf_exp i) 256) ≡ true
unfolding all_below gf_exp gf_tables
exp_range = refl

exp_exact : all_below 255 (λ i. gf_log (gf_exp i) == i) ≡ true
unfolding all_below gf_exp gf_log gf_tables
exp_exact = refl

exp_steps : all_below 255 (λ i. gf_exp (i + 1) == times_x (gf_exp i)) ≡ true
unfolding all_below gf_exp gf_tables times_x
exp_steps = refl

inverse_cells : all_below 255 (λ x. gf_inverse (x + 1) == gf_exp (255 - gf_log (x + 1))) ≡ true
unfolding all_below gf_inverse gf_exp gf_log gf_tables
inverse_cells = refl

modnn_cells : all_below 510 (λ s. modnn s == s % 255) ≡ true
unfolding all_below modnn
modnn_cells = refl

pub modnn-mod : (s : ℕ) → s < 510 → modnn s ≡ s % 255
modnn-mod s h = all_below_eq 510 modnn (λ t. t % 255) s modnn_cells h

pub gf_exp_zero : gf_exp 0 ≡ 1
unfolding gf_exp gf_tables
gf_exp_zero = refl

pub gf_exp_size : gf_exp 255 ≡ 1
unfolding gf_exp gf_tables
gf_exp_size = refl

pub gf_inverse_zero : gf_inverse 0 ≡ 0
unfolding gf_inverse gf_tables
gf_inverse_zero = refl

pub gf_exp_bounds : (i : ℕ) → i < 256 → (0 < gf_exp i) × (gf_exp i < 256)
gf_exp_bounds i h =
    ground (arith, all_below_sound 256 (λ j. ltb 0 (gf_exp j) && ltb (gf_exp j) 256) i exp_range h)

pub gf_log-gf_exp : (i : ℕ) → i < 255 → gf_log (gf_exp i) ≡ i
gf_log-gf_exp i h = all_below_eq 255 (λ j. gf_log (gf_exp j)) (λ j. j) i exp_exact h

pub gf_exp_suc : (i : ℕ) → i < 255 → gf_exp (i + 1) ≡ times_x (gf_exp i)
gf_exp_suc i h = all_below_eq 255 (λ j. gf_exp (j + 1)) (λ j. times_x (gf_exp j)) i exp_steps h

module _ (x : ℕ) (pos : 0 < x) (small : x < 256) where
  pred : x - 1 + 1 ≡ x
  pred = omega arith

  pub gf_log-lt : gf_log x < 255
  gf_log-lt =
      let h = all_below_sound 255 (λ y. ltb (gf_log (y + 1)) 255) (x - 1) log_range (omega arith) in
      rw pred at (ltb→lt _ _ h)

  pub gf_exp-gf_log : gf_exp (gf_log x) ≡ x
  gf_exp-gf_log =
      let h =
        all_below_eq 255 (λ y. gf_exp (gf_log (y + 1))) (λ y. y + 1) (x - 1) log_exact
          (omega arith) in
      rw pred at h

  pub gf_inverse-gf_exp : gf_inverse x ≡ gf_exp (255 - gf_log x)
  gf_inverse-gf_exp =
      let h =
        all_below_eq 255 (λ y. gf_inverse (y + 1)) (λ y. gf_exp (255 - gf_log (y + 1))) (x - 1)
          inverse_cells (omega arith) in
      rw pred at h
