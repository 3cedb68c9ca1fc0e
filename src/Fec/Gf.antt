-- ===== src/Fec/Gf.antt =====
-- moonlight-common-go/fec/fec.go: the field's tables and its arithmetic.
-- A slice of `gf` or `int` is a list of numbers that `set` writes, and a lookup out of bounds, which
-- the code does not make, gives 0. The 2 ^ 16 cells of `gfMulTable` are a function of the two
-- halves of the index, so a cell is computed where it is read.
use Prim.Native.Nat.{bit_and, bit_xor}
use moonparty.Base.{
  ℕ, zero, suc, ◌+◌, ◌-◌, ◌*◌, ◌/◌, ◌||◌, List, [], ◌∷◌, leb, ◌==◌, if◌then◌else◌, get_or, set,
  replicate,
}
use moonparty.Base.Bytes.{u8}

abbrev pub gf_bits : ℕ
gf_bits = 8

-- `GFPP`: the coefficient of x ^ i is at place i.
abbrev pub gf_pp : List ℕ
gf_pp = b'1' ∷ b'0' ∷ b'1' ∷ b'1' ∷ b'1' ∷ b'0' ∷ b'0' ∷ b'0' ∷ b'1' ∷ []

abbrev pub gf_size : ℕ
gf_size = 255

pub record Tables : Type 0 where
  pub gf_exp : List ℕ
  pub gf_log : List ℕ
  pub gf_inverse : List ℕ

-- The global variables before `Init`.
abbrev pub zeroed : Tables
zeroed = record { gf_exp = replicate 510 0; gf_log = replicate 256 0; gf_inverse = replicate 256 0 }

-- The `for` of `modnn`; a round takes away at least 254, so `x` rounds are enough.
unfoldable pub reduce : ℕ → ℕ → ℕ
reduce zero x = x
reduce (suc fuel) x =
    let rest = reduce fuel ((x - gf_size) / 256 + bit_and (x - gf_size) gf_size) in
    if leb gf_size x then rest else x

unfoldable pub modnn : ℕ → ℕ
unfolding reduce
modnn x = u8 (reduce x x)

-- `gfExp[i] = v; gfLog[gfExp[i]] = i`.
abbrev note_power : Tables → ℕ → ℕ → Tables
note_power t i v = record t { gf_exp = set t.gf_exp i v; gf_log = set t.gf_log v i }

-- The first loop of `generateGF`, from the power `i` on.
unfoldable pub low_powers : ℕ → ℕ → ℕ → Tables → Tables
low_powers zero i mask t = t
low_powers (suc rounds) i mask t =
    let t' = note_power t i mask in
    let t'' = record t' {
      gf_exp =
          if get_or gf_pp i 0 == b'1'
          then set t'.gf_exp gf_bits (bit_xor (get_or t'.gf_exp gf_bits 0) mask)
          else t'.gf_exp;
    } in
    low_powers rounds (i + 1) (u8 (mask * 2)) t''

-- The second loop, with the mask of the highest bit.
unfoldable pub high_powers : ℕ → ℕ → Tables → Tables
high_powers zero i t = t
high_powers (suc rounds) i t =
    let last = get_or t.gf_exp (i - 1) 0 in
    let next =
      if leb 128 last
      then bit_xor (get_or t.gf_exp gf_bits 0) (u8 (bit_xor last 128 * 2))
      else u8 (last * 2) in
    high_powers rounds (i + 1) (note_power t i next)

-- The third, which copies the powers behind themselves.
unfoldable pub extend_powers : ℕ → ℕ → Tables → Tables
extend_powers zero i t = t
extend_powers (suc rounds) i t =
    extend_powers rounds (i + 1)
      (record t { gf_exp = set t.gf_exp (i + gf_size) (get_or t.gf_exp i 0) })

-- The last, of the inverses.
unfoldable pub inverses : ℕ → ℕ → Tables → Tables
inverses zero i t = t
inverses (suc rounds) i t = inverses rounds (i + 1) (record t {
  gf_inverse = set t.gf_inverse i (get_or t.gf_exp (gf_size - get_or t.gf_log i 0) 0);
})

unfoldable pub generate_gf : Tables → Tables
unfolding low_powers high_powers extend_powers inverses
generate_gf t =
    let low = low_powers 8 0 1 (record t { gf_exp = set t.gf_exp gf_bits 0 }) in
    let marked = record low { gf_log = set low.gf_log (get_or low.gf_exp gf_bits 0) gf_bits } in
    let high = high_powers 246 9 marked in
    let whole = extend_powers 255 0 (record high { gf_log = set high.gf_log 0 gf_size }) in
    inverses 254 2 (record whole { gf_inverse = set (set whole.gf_inverse 0 0) 1 1 })

-- The tables after `Init`.
unfoldable pub gf_tables : Tables
unfolding generate_gf
gf_tables = generate_gf zeroed

unfoldable pub gf_exp : ℕ → ℕ
gf_exp i = get_or gf_tables.gf_exp i 0

unfoldable pub gf_log : ℕ → ℕ
gf_log i = get_or gf_tables.gf_log i 0

unfoldable pub gf_inverse : ℕ → ℕ
gf_inverse i = get_or gf_tables.gf_inverse i 0

-- `gfMulTable` after `initMulTable`: the cell of the row `i` and the column `j`.
unfoldable pub init_mul_table : ℕ → ℕ → ℕ
init_mul_table i j =
    let filled = gf_exp (modnn (gf_log i + gf_log j)) in if i == 0 || j == 0 then 0 else filled

-- `gfMul`, of two bytes.
unfoldable pub gf_mul : ℕ → ℕ → ℕ
gf_mul x y = init_mul_table x y
