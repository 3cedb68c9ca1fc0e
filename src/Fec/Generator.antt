-- ===== src/Fec/Generator.antt =====
-- moonlight-common-go/fec/fec.go: the matrix that `New` builds.
use Prim.Native.Nat.{bit_xor}
use mathlib.Core.Path.{subst}
use moonparty.Base.{
  from_zero, ℕ, ◌+◌, ◌-◌, ◌%◌, ◌≤◌, ◌<◌, ◌≡◌, ◌≢◌, ◌∙◌, refl, sym, ap, inl, inr, true, false, ◌||◌,
  some, arith, ◌==◌, if◌then◌else◌, leb, ltb, Bool-cases, Option-cases, eq→==,
}
use moonparty.Base.Bits.{bit_xor-lt}
use moonparty.Fec.Gf.{gf_inverse}
use moonparty.Fec.Scalar.{
  Gf, Gf-ext, to_gf, gf_zero, gf_one, ◌⊕◌, ◌⊗◌, inverse, inverse_small, one-mul, zero-mul, mul-one,
  mul-zero,
}
use moonparty.Fec.Sums.{sum, sum_congr, sum_single}
use moonparty.Fec.Matrix.{Cells, sub_matrix, multiply, invert_matrix}
use moonparty.Fec.Exchange.{dot}
use moonparty.Fec.Inversion.{invert_matrix_inverse, invert_matrix_singular}
use moonparty.Fec.Codec.{ReedSolomon, done, failed, too_many_shards, vandermonde, write_parity, new}

-- The upper part is the identity, and the cells of the lower part are the inverses of the sums of the
-- points m + c and j.
pub record IsCodec (k m : ℕ) (rs : ReedSolomon) : Type 0 where
  pub data_count : rs.data_shards ≡ k
  pub parity_count : rs.parity_shards ≡ m
  pub total_count : rs.total_shards ≡ k + m
  pub systematic : (r c : ℕ) → r < k → c < k → rs.matrix r c ≡ (if r == c then gf_one else gf_zero)
  pub cauchy : (j c : ℕ) → j < m → c < k → rs.matrix (k + j) c ≡ inverse (to_gf (m + c) ⊕ to_gf j)
  pub parity_rows : (j c : ℕ) → rs.parity j c ≡ rs.matrix (k + j) c

unit_row : ℕ → ℕ → Gf
unit_row r c = if r == c then gf_one else gf_zero

unit_row_self : (r : ℕ) → unit_row r r ≡ gf_one
unfolding unit_row
unit_row_self r = ground arith

unit_row_ne : (r c : ℕ) → c ≢ r → unit_row r c ≡ gf_zero
unfolding unit_row
unit_row_ne r c ne = ground arith

pub dot_unit :
    (k r : ℕ) (w : ℕ → Gf) → r < k → dot k (λ c. if r == c then gf_one else gf_zero) w ≡ w r
unfolding unit_row
dot_unit k r w p =
    sum_single k r (λ c. unit_row r c ⊗ w c) p
      (λ c q ne. ap (λ t. t ⊗ w c) (unit_row_ne r c ne) ∙ zero-mul (w c))
    ∙ ap (λ t. t ⊗ w r) (unit_row_self r)
    ∙ one-mul (w r)

-- The rows of the upper part give the unknowns back.
pub systematic_row :
    (k m : ℕ) (rs : ReedSolomon) (codec : IsCodec k m rs) (r : ℕ) (x : ℕ → Gf)
    → r < k
    → dot k (rs.matrix r) x ≡ x r
systematic_row k m rs codec r x p =
    sum_congr k _ (λ c. (if r == c then gf_one else gf_zero) ⊗ x c)
      (λ c q. ap (λ t. t ⊗ x c) (codec.systematic r c p q))
    ∙ dot_unit k r x p

-- The matrix that `New` inverts.
abbrev top_part : Cells
top_part = sub_matrix vandermonde 0 0

top_part_cell : (r c : ℕ) → top_part r c ≡ (if r == c then gf_one else gf_zero)
unfolding sub_matrix vandermonde
top_part_cell r c = rw (from_zero r, from_zero c)

dot_top : (k r : ℕ) (x : ℕ → Gf) → r < k → dot k (top_part r) x ≡ x r
dot_top k r x p = sum_congr k _ _ (λ c q. rw (top_part_cell r c)) ∙ dot_unit k r x p

-- The sum over a row with one unknown that is 1.
dot_column : (k c : ℕ) (row : ℕ → Gf) → c < k → dot k row (unit_row c) ≡ row c
dot_column k c row p =
    sum_single k c (λ i. row i ⊗ unit_row c i) p
      (λ i q ne. ap (◌⊗◌ (row i)) (unit_row_ne c i ne) ∙ mul-zero (row i))
    ∙ ap (◌⊗◌ (row c)) (unit_row_self c)
    ∙ mul-one (row c)

unit_row_comm : (r c : ℕ) → unit_row c r ≡ unit_row r c
unfolding unit_row
unit_row_comm r c = ground arith

-- The identity is inverted, to itself.
invert_identity :
    (k : ℕ)
    → (top : Cells) × (invert_matrix top_part k ≡ some top)
      × ((r c : ℕ) → r < k → c < k → top r c ≡ unit_row r c)
invert_identity k = elim (Option-cases (invert_matrix top_part k)) [
  | inl stuck ↦
      let (x, zeros, j, p, ne) = invert_matrix_singular k top_part stuck in
      absurd (ne (sym (dot_top k j x p) ∙ zeros j p))
  | inr (top, e) ↦ (
    top,
    e,
    λ r c p q.
        sym (dot_column k c (top r) q)
        ∙ sym (
            (invert_matrix_inverse k top_part top (unit_row c) (unit_row c) e).0
              (λ i l. sym (dot_top k i (unit_row c) l)) r p)
        ∙ unit_row_comm r c,
  )
]

dot-vandermonde : (k r : ℕ) (x : ℕ → Gf) → r < k → dot k (vandermonde r) x ≡ x r
unfolding vandermonde
dot-vandermonde k r x p = dot_unit k r x p

multiply_same : (k : ℕ) (a b : Cells) → multiply a k b k ≡ some (λ r c. sum k (λ i. a r i ⊗ b i c))
unfolding multiply
multiply_same k a b = rw (eq→== k k refl)

-- The codec, with the inverted part `top`.
abbrev built : ℕ → ℕ → Cells → ReedSolomon
built k m top =
    let written = write_parity k m (λ r c. sum k (λ i. vandermonde r i ⊗ top i c)) in
    record {
      data_shards = k;
      parity_shards = m;
      total_shards = k + m;
      matrix = written;
      parity = sub_matrix written k 0;
    }

new-built :
    (k m : ℕ) (top : Cells)
    → 0 < k
    → 0 < m
    → k + m ≤ 255
    → invert_matrix top_part k ≡ some top
    → new k m ≡ done (built k m top)
unfolding new
new-built k m top p q l e =
    let valid : (ltb 255 (k + m) || leb k 0 || leb m 0) ≡ false = ground arith in
    rw (valid, e, multiply_same k vandermonde top, new)

parity_cell :
    (a b : ℕ) → a < 256 → b < 256 → to_gf (gf_inverse (bit_xor a b)) ≡ inverse (to_gf a ⊕ to_gf b)
unfolding to_gf inverse ◌⊕◌
parity_cell a b p q =
    let ea : a % 256 ≡ a = omega arith in
    let eb : b % 256 ≡ b = omega arith in
    let small = inverse_small (bit_xor a b) (bit_xor-lt a b p q) in
    Gf-ext _ _ (rw (ea, eb) (omega (arith, small)))

built-IsCodec :
    (k m : ℕ) (top : Cells)
    → k + m ≤ 255
    → ((r c : ℕ) → r < k → c < k → top r c ≡ unit_row r c)
    → IsCodec k m (built k m top)
unfolding write_parity sub_matrix unit_row
built-IsCodec k m top l h = record {
  data_count = refl;
  parity_count = refl;
  total_count = refl;
  systematic = λ r c p q.
      let upper : leb k r ≡ false = ground arith in
      rw upper (dot-vandermonde k r (λ i. top i c) p ∙ h r c p q);
  cauchy = λ j c p q.
      let lower : leb k (k + j) ≡ true = ground arith in
      let place : k + j - k ≡ j = omega arith in
      rw (lower, place) (parity_cell (m + c) j (omega arith) (omega arith));
  parity_rows = λ j c. rw (from_zero c);
}

-- `New` gives a codec for counts that are not 0 and add up to 255 at most, and the upper part of its
-- matrix is the identity.
pub new_IsCodec :
    (k m : ℕ)
    → 0 < k
    → 0 < m
    → k + m ≤ 255
    → (rs : ReedSolomon) × (new k m ≡ done rs) × IsCodec k m rs
new_IsCodec k m p q l =
    let (top, e, h) = invert_identity k in
    (built k m top, new-built k m top p q l e, built-IsCodec k m top l h)

-- `New` refuses other counts.
pub new_bounds :
    (k m : ℕ) (rs : ReedSolomon) → new k m ≡ done rs → (0 < k) × (0 < m) × (k + m ≤ 255)
unfolding new
new_bounds k m rs h = elim (Bool-cases (ltb 255 (k + m) || leb k 0 || leb m 0)) [
  | inl bad ↦ absurd (refused (rw (bad, new) at h))
  | inr good ↦ (ground arith, ground arith, ground arith)
]
  where
    refused : failed too_many_shards ≡ done rs → ⊥
    refused e = cc

-- So whatever `New` gives is a codec.
pub new-IsCodec : (k m : ℕ) (rs : ReedSolomon) → new k m ≡ done rs → IsCodec k m rs
new-IsCodec k m rs h =
    let (p, q, l) = new_bounds k m rs h in
    let (rs', e, codec) = new_IsCodec k m p q l in
    subst (IsCodec k m) (done_injective rs' rs (sym e ∙ h)) codec
  where
    done_injective : (a b : ReedSolomon) → done a ≡ done b → a ≡ b
    done_injective a b e = cc
