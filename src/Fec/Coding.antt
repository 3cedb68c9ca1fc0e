-- ===== src/Fec/Coding.antt =====
-- moonlight-common-go/fec/fec.go: `codeSomeShards` is a product of matrices, byte by byte.
use moonparty.Base.{
  from_zero, ℕ, zero, suc, ◌+◌, ◌<◌, ◌≡◌, ◌∙◌, refl, sym, ap, some, List, [], ◌∷◌, arith, length,
}
use moonparty.Fec.Scalar.{Gf, gf_zero, ◌⊕◌, ◌⊗◌, zero-add, add-zero, add_assoc, add_comm}
use moonparty.Fec.Sums.{sum, sum_congr}
use moonparty.Fec.Matrix.{Cells}
use moonparty.Fec.Exchange.{dot}
use moonparty.Fec.Codec.{code_outputs, code_some_shards}
use moonparty.Fec.Bytes.{byte, shard_at, Gives, Coded, before, code_output_lem}

-- Shards of one size.
abbrev pub Sized : ℕ → List (List Gf) → Type 0
Sized n shards = (r : ℕ) → r < length shards → length (shard_at shards r) ≡ n

-- Shards of a size and a number, with the bytes of `f`.
abbrev pub IsBlock : ℕ → ℕ → (ℕ → ℕ → Gf) → List (List Gf) → Type 0
IsBlock n m f shards =
    (length shards ≡ m)
    × ((r : ℕ)
        → r < m
        → (length (shard_at shards r) ≡ n) × ((i : ℕ) → byte (shard_at shards r) i ≡ f r i))

shift0 : (a : ℕ) → a ≡ a + 0
shift0 a = omega arith

shift1 : (a b : ℕ) → a + 1 + b ≡ a + suc b
shift1 a b = omega arith

before_later : (c : ℕ) (dst : List Gf) (i : ℕ) → 0 < c → before c dst i ≡ byte dst i
before_later c dst i p = ground arith

code_outputs_lem :
    (rows : Cells) (c row n : ℕ) (input : List Gf) (outputs : List (List Gf))
    → length input ≡ n
    → Sized n outputs
    → Gives (code_outputs rows c row input outputs) (
        IsBlock n
          (length outputs)
          (λ r i. before c (shard_at outputs r) i ⊕ rows (row + r) c ⊗ byte input i))
unfolding code_outputs
code_outputs_lem rows c row n input [] l s = ([], refl, (refl, λ r p. absurd (omega arith)))
code_outputs_lem rows c row n input (dst ∷ outputs) l s =
    let (out, e, h) = code_output_lem dst input c (rows row c) (l ∙ sym (s 0 (omega arith))) in
    let (outs, e', (m, h')) =
      code_outputs_lem rows c (row + 1) n input outputs l (λ r p. s (suc r) (omega arith)) in
    (out ∷ outs, rw (e, e', code_outputs), (ap suc m, rest out outs h h'))
  where
    rest :
        (out : List Gf) (outs : List (List Gf))
        → Coded dst (λ i. before c dst i ⊕ rows row c ⊗ byte input i) out
        → ((r : ℕ)
            → r < length outputs
            → (length (shard_at outs r) ≡ n)
              × ((i : ℕ)
                  → byte (shard_at outs r) i
                    ≡ before c (shard_at outputs r) i ⊕ rows (row + 1 + r) c ⊗ byte input i))
        → (r : ℕ) → r < suc (length outputs)
        → (length (shard_at (out ∷ outs) r) ≡ n)
          × ((i : ℕ)
              → byte (shard_at (out ∷ outs) r) i
                ≡ before c (shard_at (dst ∷ outputs) r) i ⊕ rows (row + r) c ⊗ byte input i)
    rest out outs (k, b) h' zero p = (
      k ∙ s 0 (omega arith),
      λ i. b i ∙ ap (λ t. before c dst i ⊕ rows t c ⊗ byte input i) (shift0 row),
    )
    rest out outs (k, b) h' (suc r) p =
        let (k', b') = h' r (omega arith) in
        (
          k',
          λ i.
              b' i
              ∙ ap (λ t. before c (shard_at outputs r) i ⊕ rows t c ⊗ byte input i) (shift1 row r),
        )

-- The product of a row, from the column `c` on, with the bytes of the inputs.
coded_sum : (ℕ → Gf) → ℕ → List (List Gf) → ℕ → Gf
coded_sum row c [] i = gf_zero
coded_sum row c (input ∷ inputs) i = row c ⊗ byte input i ⊕ coded_sum row (c + 1) inputs i

-- Later inputs are added.
code_later_lem :
    (rows : Cells) (c n : ℕ) (inputs outputs : List (List Gf))
    → 0 < c
    → Sized n inputs
    → Sized n outputs
    → Gives (code_some_shards rows c inputs outputs) (
        IsBlock n
          (length outputs)
          (λ r i. byte (shard_at outputs r) i ⊕ coded_sum (rows r) c inputs i))
unfolding code_some_shards coded_sum
code_later_lem rows c n [] outputs p s t =
    (outputs, refl, (refl, λ r q. (t r q, λ i. sym (add-zero _))))
code_later_lem rows c n (input ∷ inputs) outputs p s t =
    let (outs, e, (m, h)) = code_outputs_lem rows c 0 n input outputs (s 0 (omega arith)) t in
    let (last, e', (m', h')) =
      code_later_lem rows (c + 1) n inputs outs (omega arith) (λ r q. s (suc r) (omega arith))
        (λ r q. (h r (omega arith)).0) in
    (
      last,
      rw (e, code_some_shards) e',
      (
        m' ∙ m,
        λ r q.
            let (k, b) = h r q in
            let (k', b') = h' r (omega arith) in
            (
              k',
              λ i.
                  b' i
                  ∙ ap (λ u. u ⊕ coded_sum (rows r) (c + 1) inputs i)
                      (b i ∙ rw (before_later c (shard_at outputs r) i p, from_zero r))
                  ∙ add_assoc _ _ _,
            ),
      ),
    )

pub sum_front : (n : ℕ) (f : ℕ → Gf) → sum (suc n) f ≡ f 0 ⊕ sum n (λ i. f (suc i))
unfolding sum
sum_front zero f = add_comm gf_zero (f 0)
sum_front (suc n) f = ap (λ t. t ⊕ f (suc n)) (sum_front n f) ∙ add_assoc _ _ _

coded_sum-dot :
    (row : ℕ → Gf) (c : ℕ) (inputs : List (List Gf)) (i : ℕ)
    → coded_sum row c inputs i ≡ sum (length inputs) (λ q. row (c + q) ⊗ byte (shard_at inputs q) i)
unfolding coded_sum sum
coded_sum-dot row c [] i = refl
coded_sum-dot row c (input ∷ inputs) i =
    ap (◌⊕◌ (row c ⊗ byte input i)) (
      coded_sum-dot row (c + 1) inputs i
      ∙ sum_congr (length inputs) _ (λ q. row (c + suc q) ⊗ byte (shard_at inputs q) i)
          (λ q l. ap (λ t. row t ⊗ byte (shard_at inputs q) i) (shift1 c q)))
    ∙ ap
        (λ t.
          row t ⊗ byte input i
          ⊕ sum (length inputs) (λ q. row (c + suc q) ⊗ byte (shard_at inputs q) i))
        (shift0 c)
    ∙ sym (sum_front (length inputs) (λ q. row (c + q) ⊗ byte (shard_at (input ∷ inputs) q) i))

-- At least one input and any outputs, all of one size, are coded without a panic to as many outputs
-- of that size: each byte of an output is the product of its row with the bytes of the inputs at that
-- place.
pub code_some_shards_lem :
    (rows : Cells) (n : ℕ) (inputs outputs : List (List Gf))
    → 0 < length inputs
    → Sized n inputs
    → Sized n outputs
    → (outs : List (List Gf)) × (code_some_shards rows 0 inputs outputs ≡ some outs)
      × IsBlock n
          (length outputs)
          (λ r i. dot (length inputs) (rows r) (λ c. byte (shard_at inputs c) i))
          outs
unfolding code_some_shards coded_sum
code_some_shards_lem rows n [] outputs p s t = absurd (omega arith)
code_some_shards_lem rows n (input ∷ inputs) outputs p s t =
    let (outs, e, (m, h)) = code_outputs_lem rows 0 0 n input outputs (s 0 (omega arith)) t in
    let (last, e', (m', h')) =
      code_later_lem rows (0 + 1) n inputs outs (omega arith) (λ r q. s (suc r) (omega arith))
        (λ r q. (h r (omega arith)).0) in
    (
      last,
      rw (e, code_some_shards) e',
      (
        m' ∙ m,
        λ r q.
            let (k, b) = h r q in
            let (k', b') = h' r (omega arith) in
            (
              k',
              λ i.
                  b' i
                  ∙ ap (λ u. u ⊕ coded_sum (rows r) (0 + 1) inputs i)
                      (b i ∙ zero-add _ ∙ rw (from_zero r))
                  ∙ coded_sum-dot (rows r) 0 (input ∷ inputs) i
                  ∙ sum_congr (suc (length inputs)) _ _ (λ q l. rw (from_zero q)),
            ),
      ),
    )
