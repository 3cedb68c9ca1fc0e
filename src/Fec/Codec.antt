-- ===== src/Fec/Codec.antt =====
-- moonlight-common-go/fec/fec.go: the codec. A shard is the list of its bytes; `none` is a shard that
-- is nil. The counts of `New` are not negative here (a negative one is refused as 0 is), and the
-- shards that `Reconstruct` writes share no memory with one another or with those that it reads.
use Prim.Native.Nat.{bit_xor}
use moonparty.Base.{
  ℕ, zero, suc, ◌+◌, ◌-◌, Bool, true, false, not, ◌&&◌, ◌||◌, Option, none, some, List, [], ◌∷◌,
  ◌++◌, map, ltb, leb, ◌==◌, ◌!=◌, if◌then◌else◌, length, get_or, set, take, drop, replicate,
}
use moonparty.Fec.Gf.{gf_inverse}
use moonparty.Fec.Scalar.{Gf, gf_zero, gf_one, ◌⊕◌, ◌⊗◌, to_gf}
use moonparty.Fec.Matrix.{Cells, is_zero, sub_matrix, multiply, invert_matrix}

-- The bytes of a shard; a nil one has none.
abbrev pub content : Option (List Gf) → List Gf
content none = []
content (some s) = s

pub data FecError : Type 0 where
  too_many_shards not_enough_shards invalid_shard_size singular_matrix : FecError

pub data Outcome {ℓ} (A : Type ℓ) : Type ℓ where
  done : A → Outcome A
  failed : FecError → Outcome A
  panicked : Outcome A

pub record ReedSolomon : Type 0 where
  pub data_shards : ℕ
  pub parity_shards : ℕ
  pub total_shards : ℕ
  pub matrix : Cells
  pub parity : Cells

abbrev pub data_shards_max : ℕ
data_shards_max = 255

-- `vm`.
unfoldable pub vandermonde : Cells
vandermonde row col = if row == col then gf_one else gf_zero

-- The loops that write the parity rows.
unfoldable pub write_parity : ℕ → ℕ → Cells → Cells
write_parity k m matrix r c =
    if leb k r then to_gf (gf_inverse (bit_xor (m + c) (r - k))) else matrix r c

unfoldable pub new : ℕ → ℕ → Outcome ReedSolomon
new k m =
    let build : Cells → Outcome ReedSolomon = λ top. elim (multiply vandermonde k top k) [
      | none ↦ panicked
      | some matrix ↦
          let written = write_parity k m matrix in
          done (record {
            data_shards = k;
            parity_shards = m;
            total_shards = k + m;
            matrix = written;
            parity = sub_matrix written k 0;
          })
    ] in
    let inverted : Outcome ReedSolomon = elim (invert_matrix (sub_matrix vandermonde 0 0) k) [
      | none ↦ failed singular_matrix
      | some top ↦ build top
    ] in
    if ltb data_shards_max (k + m) || leb k 0 || leb m 0 then failed too_many_shards else inverted

abbrev pub push_front {ℓ} : {A : Type ℓ} → A → Option (List A) → Option (List A)
push_front a none = none
push_front a (some xs) = some (a ∷ xs)

-- The loop of `mul`; a source that ends first is a panic.
unfoldable pub mul_bytes : List Gf → List Gf → Gf → Option (List Gf)
mul_bytes [] src c = some []
mul_bytes (d ∷ dst) [] c = none
mul_bytes (d ∷ dst) (s ∷ src) c = push_front (c ⊗ s) (mul_bytes dst src c)

-- `mul`, which writes over a shard.
unfoldable pub mul : List Gf → List Gf → Gf → Option (List Gf)
unfolding mul_bytes
mul dst src c = if is_zero c then some (replicate (length dst) gf_zero) else mul_bytes dst src c

-- The loop of `addmul`.
unfoldable pub addmul_bytes : List Gf → List Gf → Gf → Option (List Gf)
addmul_bytes [] src c = some []
addmul_bytes (d ∷ dst) [] c = none
addmul_bytes (d ∷ dst) (s ∷ src) c = push_front (d ⊕ c ⊗ s) (addmul_bytes dst src c)

-- `addmul`, on shards.
unfoldable pub addmul_shard : List Gf → List Gf → Gf → Option (List Gf)
unfolding addmul_bytes
addmul_shard dst src c = if is_zero c then some dst else addmul_bytes dst src c

-- The inner loop of `codeSomeShards`, from the output `row` on, at the input `c`.
unfoldable pub code_outputs : Cells → ℕ → ℕ → List Gf → List (List Gf) → Option (List (List Gf))
unfolding mul addmul_shard
code_outputs rows c row input [] = some []
code_outputs rows c row input (dst ∷ outputs) =
    let coded =
      if c == 0 then mul dst input (rows row c) else addmul_shard dst input (rows row c) in
    let rest = code_outputs rows c (row + 1) input outputs in
    elim coded [ none ↦ none | some dst' ↦ push_front dst' rest ]

-- The outer loop, over the inputs from `c` on.
unfoldable pub code_some_shards :
    Cells → ℕ → List (List Gf) → List (List Gf) → Option (List (List Gf))
unfolding code_outputs
code_some_shards rows c [] outputs = some outputs
code_some_shards rows c (input ∷ inputs) outputs = elim (code_outputs rows c 0 input outputs) [
  | none ↦ none
  | some outputs' ↦ code_some_shards rows (c + 1) inputs outputs'
]

unfoldable pub all_of_length : ℕ → List (List Gf) → Bool
all_of_length n [] = true
all_of_length n (s ∷ shards) = length s == n && all_of_length n shards

unfoldable pub encode : ReedSolomon → List (List Gf) → Outcome (List (List Gf))
unfolding all_of_length code_some_shards
encode rs shards =
    let inputs = take rs.data_shards shards in
    let coded : Outcome (List (List Gf)) =
      elim (code_some_shards rs.parity 0 inputs (drop rs.data_shards shards)) [
        | none ↦ panicked
        | some outputs ↦ done (inputs ++ outputs)
      ] in
    if length shards != rs.total_shards || not (all_of_length (length (get_or shards 0 [])) shards)
    then failed invalid_shard_size
    else coded

-- The first loop of `Reconstruct`, with the block size so far; `none` is a size that differs.
unfoldable pub block_size : ℕ → List (Option (List Gf)) → List Bool → Option ℕ
block_size size [] present = some size
block_size size (s ∷ shards) [] = some size
block_size size (s ∷ shards) (here ∷ present) =
    let n = length (content s) in
    let rest = block_size (if here && size == 0 then n else size) shards present in
    if here && size != 0 && n != size then none else rest

-- The missing data shards, from `i` on.
unfoldable pub missing_data : ℕ → ℕ → List Bool → List ℕ
missing_data zero i present = []
missing_data (suc rounds) i present =
    let rest = missing_data rounds (i + 1) present in
    if get_or present i false then rest else i ∷ rest

-- The parity shards at hand, from `i` on, at most `wanted` of them.
unfoldable pub available_parity : ℕ → ℕ → ℕ → ℕ → List Bool → List ℕ
available_parity zero i k wanted present = []
available_parity (suc rounds) i k wanted present =
    let more = available_parity rounds (i + 1) k (wanted - 1) present in
    let rest = available_parity rounds (i + 1) k wanted present in
    if wanted == 0 then [] else if get_or present i false then (i - k) ∷ more else rest

-- The data shards at hand, from `i` on: `missingIdx` has passed what is not in `missing`.
unfoldable pub kept_data : ℕ → ℕ → List ℕ → List ℕ
kept_data zero i missing = []
kept_data (suc rounds) i [] = i ∷ kept_data rounds (i + 1) []
kept_data (suc rounds) i (next ∷ missing) =
    let passed = kept_data rounds (i + 1) missing in
    let kept = i ∷ kept_data rounds (i + 1) (next ∷ missing) in if i == next then passed else kept

-- The rows of the matrix that the decode matrix copies.
unfoldable pub decode_rows : ℕ → List ℕ → List ℕ → List ℕ
decode_rows k kept available = kept ++ take (k - length kept) (map (λ j. k + j) available)

-- The shards that are written, made where they are nil.
unfoldable pub outputs_of : ℕ → List (Option (List Gf)) → List ℕ → List (List Gf)
outputs_of size shards [] = []
outputs_of size shards (i ∷ missing) =
    elim (get_or shards i none) [ none ↦ replicate size gf_zero | some s ↦ s ]
    ∷ outputs_of size shards missing

-- `copy` of the row `idx` to the row `i`, in the order of `missing`.
unfoldable pub copy_rows : ℕ → List ℕ → Cells → Cells
copy_rows i [] rows = rows
copy_rows i (idx ∷ missing) rows =
    copy_rows (i + 1) missing (λ r c. if r == i then rows idx c else rows r c)

-- The outputs stand in the place of the missing shards.
unfoldable pub put_outputs :
    List (Option (List Gf)) → List ℕ → List (List Gf) → List (Option (List Gf))
put_outputs shards [] outputs = shards
put_outputs shards (i ∷ missing) [] = shards
put_outputs shards (i ∷ missing) (s ∷ outputs) = put_outputs (set shards i (some s)) missing outputs

-- The rest of `Reconstruct`, from the decode matrix on.
unfoldable pub recover :
    ReedSolomon → ℕ → List (Option (List Gf)) → List ℕ → List ℕ → Outcome (List (Option (List Gf)))
recover rs size shards missing available =
    let k = rs.data_shards in
    let rows = decode_rows k (kept_data k 0 missing) available in
    let inputs = map (λ i. content (get_or shards i none)) rows in
    elim (invert_matrix (λ r c. rs.matrix (get_or rows r 0) c) k) [
      | none ↦ failed singular_matrix
      | some inverted ↦
          elim (code_some_shards (copy_rows 0 missing inverted) 0 inputs
            (outputs_of size shards missing)) [
              | none ↦ panicked
              | some outputs ↦ done (put_outputs shards missing outputs)
            ]
    ]

unfoldable pub reconstruct :
    ReedSolomon → List (Option (List Gf)) → List Bool → Outcome (List (Option (List Gf)))
reconstruct rs shards present =
    let k = rs.data_shards in
    let missing = missing_data k 0 present in
    let available = available_parity (rs.total_shards - k) k k (length missing) present in
    let sized = λ (size : ℕ).
      if size == 0
      then failed not_enough_shards
      else if length missing == 0
      then done shards
      else if ltb (length available) (length missing)
      then failed not_enough_shards
      else recover rs size shards missing available in
    let checked : Outcome (List (Option (List Gf))) = elim (block_size 0 shards present) [
      | none ↦ failed invalid_shard_size
      | some size ↦ sized size
    ] in
    if length shards != rs.total_shards || length present != rs.total_shards
    then failed invalid_shard_size
    else checked
