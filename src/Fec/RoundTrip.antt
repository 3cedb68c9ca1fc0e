-- ===== src/Fec/RoundTrip.antt =====
-- moonlight-common-go/fec/fec.go: `Reconstruct` after `Encode`.
use mathlib.Core.Path.{subst}
use moonparty.Base.{
  ℕ, ◌+◌, ◌≤◌, ◌<◌, ◌≡◌, ◌∙◌, sym, ap, Bool, Option, none, some, List, length, get_or,
}
use moonparty.Fec.Scalar.{Gf}
use moonparty.Fec.Bytes.{shard_at}
use moonparty.Fec.Coding.{Sized}
use moonparty.Fec.Codec.{ReedSolomon, done, missing_data, new, encode, reconstruct}
use moonparty.Fec.Generator.{new-IsCodec, new_bounds}
use moonparty.Fec.Codewords.{IsCodeword, encode_lem}
use moonparty.Fec.Guards.{IsReceived}
use moonparty.Fec.Recovery.{reconstruct_codeword}

-- With shards of one size that is not 0, and a codec that `New` gave: whatever shards are lost after
-- `Encode`, where they are no more than the parity shards, and nothing or a buffer of the size stands
-- in their place, `Reconstruct` succeeds, and every data shard is again what it was before `Encode`.
pub reconstruct-encode :
    (k m n : ℕ) (rs : ReedSolomon) (shards full : List (List Gf))
    (received : List (Option (List Gf))) (present : List Bool)
    → new k m ≡ done rs
    → 0 < n
    → length shards ≡ k + m
    → Sized n shards
    → encode rs shards ≡ done full
    → IsReceived k m n full received present
    → length (missing_data (k + m) 0 present) ≤ m
    → (restored : List (Option (List Gf))) × (reconstruct rs received present ≡ done restored)
      × ((r : ℕ) → r < k → get_or restored r none ≡ some (shard_at shards r))
reconstruct-encode k m n rs shards full received present built pos count sizes coded arrived few =
    let (p, q, l) = new_bounds k m rs built in
    let codec = new-IsCodec k m rs built in
    let (full', e, word, kept) = encode_lem k m n rs codec p shards count sizes in
    let same = done_injective full full' (sym coded ∙ e) in
    let word' = subst (IsCodeword k m n rs) (sym same) word in
    let (restored, runs, places, others) =
      reconstruct_codeword k m n rs codec l p pos full word' received present arrived few in
    (
      restored,
      runs,
      λ r below.
          places r below ∙ ap some (ap (λ (s : List (List Gf)). shard_at s r) same ∙ kept r below),
    )
  where
    done_injective : (a b : List (List Gf)) → done a ≡ done b → a ≡ b
    done_injective a b e = cc
