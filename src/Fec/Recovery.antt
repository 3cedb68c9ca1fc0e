-- ===== src/Fec/Recovery.antt =====
-- moonlight-common-go/fec/fec.go: `Reconstruct` gives the missing data shards back.
use moonparty.Base.{
  from_zero, ℕ, ◌+◌, ◌-◌, ◌≤◌, ◌<◌, ◌≡◌, ◌≢◌, ◌∙◌, refl, sym, ap, inl, inr, Bool, true, false,
  Option, none, some, List, [], ◌∷◌, ◌++◌, map, arith, ◌==◌, ==→eq, if◌then◌else◌, Bool-cases,
  length, length-append, get_or,
}
use moonparty.Base.All.{All, All-and, append-All, map-All, length-map}
use moonparty.Fec.Scalar.{Gf}
use moonparty.Fec.Bytes.{shard_at}
use moonparty.Fec.Codec.{
  ReedSolomon, done, content, missing_data, available_parity, kept_data, decode_rows, put_outputs,
  recover, reconstruct,
}
use moonparty.Fec.Generator.{IsCodec}
use moonparty.Fec.Codewords.{IsCodeword}
use moonparty.Fec.Erasure.{
  Between, Between-All, missing_data-Between, missing_data-All, All-missing_data, All-kept_data,
  length-kept_data,
}
use moonparty.Fec.Decoding.{
  All-available_parity, available_parity-Between, length-available_parity, length-missing_data,
}
use moonparty.Fec.Kernel.{decode_rows_lem, decode_kernel}
use moonparty.Fec.Outputs.{
  PresentSized, block_size_lem, some_present, Replaceable, Outputs, put_outputs_other,
  put_outputs_lem,
}
use moonparty.Fec.Reconstruction.{decode_inverted, coded}
use moonparty.Fec.Guards.{IsReceived, recover_runs, past_guards}

clash : false ≡ true → ⊥
clash e = cc

module _ (k m n : ℕ) (rs : ReedSolomon) (codec : IsCodec k m rs) (l : k + m ≤ 255) (pos : 0 < k)
    (some_bytes : 0 < n) (full : List (List Gf)) (word : IsCodeword k m n rs full)
    (shards : List (Option (List Gf))) (present : List Bool)
    (received : IsReceived k m n full shards present)
    (few : length (missing_data (k + m) 0 present) ≤ m) where
  abbrev missing : List ℕ
  missing = missing_data k 0 present

  abbrev available : List ℕ
  available = available_parity m k k (length missing) present

  abbrev rows : List ℕ
  rows = decode_rows k (kept_data k 0 missing) available

  missing_low : Between 0 k missing
  missing_low = missing_data-Between present k 0 k (omega arith)

  -- As many parity shards are at hand as data shards are missing.
  enough : length available ≡ length missing
  enough =
      length-available_parity present k m k (length missing)
        (omega (arith, rw (from_zero k) at (length-missing_data present k m (k + m) 0 refl)))

  available_low : Between 0 m available
  available_low =
      let e : k - k ≡ 0 = omega arith in
      rw e at (available_parity-Between present k m k (length missing) m (omega arith) refl)

  rows_lem : rows ≡ kept_data k 0 missing ++ map (λ j. k + j) available
  rows_lem = decode_rows_lem k m rs codec l present available available_low enough

  rows_count : length rows ≡ k
  rows_count =
      ap length rows_lem
      ∙ omega (
        arith,
        length-append (kept_data k 0 missing) (map (λ j. k + j) available),
        length-map (λ j. k + j) available,
        length-kept_data present k 0,
        enough,
      )

  rows_present : All (λ r. (r < k + m) × (get_or present r false ≡ true)) rows
  rows_present = rw rows_lem (
      append-All (λ r. (r < k + m) × (get_or present r false ≡ true)) (kept_data k 0 missing)
        (map (λ j. k + j) available)
        (All-kept_data present (λ r. (r < k + m) × (get_or present r false ≡ true)) k 0
          (λ j lo up at_hand. (omega arith, at_hand)))
        (map-All (λ j. k + j) (λ r. (r < k + m) × (get_or present r false ≡ true)) available
          (All-available_parity present k
            (λ j. (k + j < k + m) × (get_or present (k + j) false ≡ true)) m k (length missing)
            (omega arith) (λ j lo up at_hand. (omega arith, at_hand)))))

  -- What `recover` gives back.
  recovered :
      (outs : List (List Gf)) × (recover rs n shards missing available
        ≡ done (put_outputs shards missing outs))
      × Outputs (shard_at full) missing outs
  recovered =
      let below = All-and rows (λ r both. both.0) rows_present in
      let at_hand = All-and rows (λ r both. received.here r both.0 both.1) rows_present in
      let determined = decode_kernel k m rs codec l present available available_low enough in
      let (b, inverted, inverse) =
        decode_inverted k m n rs codec pos full word rows rows_count below determined in
      let (outs, e, o) =
        coded k m n rs codec pos full word rows rows_count below determined shards at_hand missing
          missing_low replaceable b inverse in
      (outs, recover_runs k n rs shards missing available b outs codec.data_count inverted e, o)
    where
      replaceable : All (λ i. Replaceable n (get_or shards i none)) missing
      replaceable =
          All-missing_data present (λ i. Replaceable n (get_or shards i none)) k 0
            (λ j lo up lost. received.gone j (omega arith) lost)

  sized : PresentSized n shards present
  sized r p at_hand =
      let below : r < k + m = omega (arith, received.shard_count) in
      ap (λ (o : Option (List Gf)). length (content o)) (received.here r below at_hand)
      ∙ word.sizes r (omega (arith, word.count))

  -- The guards of `reconstruct` pass, and it ends at once or recovers.
  reconstruct_runs :
      reconstruct rs shards present
      ≡ (if length missing == 0 then done shards else recover rs n shards missing available)
  reconstruct_runs =
      let (r, a, b, at_hand) = some_present present (k + m) 0 (omega (arith, few)) in
      past_guards k m n rs shards present codec.data_count
        (omega (arith, codec.total_count, codec.data_count))
        (received.shard_count ∙ sym codec.total_count)
        (received.present_count ∙ sym codec.total_count) some_bytes
        (block_size_lem n shards present r some_bytes sized (omega (arith, received.shard_count))
          at_hand)
        enough

  -- The missing data shards after `recover`.
  recovered_place :
      (outs : List (List Gf))
      → Outputs (shard_at full) missing outs
      → (r : ℕ) → r < k
      → get_or (put_outputs shards missing outs) r none ≡ some (shard_at full r)
  recovered_place outs o r p = elim (Bool-cases (get_or present r false)) [
    | inl at_hand ↦
        put_outputs_other shards missing outs r (
          All-missing_data present (λ i. i ≢ r) k 0
            (λ j lo up lost e. clash (sym (rw e at lost) ∙ at_hand)))
        ∙ received.here r (omega arith) at_hand
    | inr lost ↦
        missing_data-All present
          (λ i. get_or (put_outputs shards missing outs) i none ≡ some (shard_at full i)) k 0
          (put_outputs_lem (shard_at full) 0 k missing shards outs missing_low
            (omega (arith, received.shard_count)) o)
          r (omega arith) (omega arith) lost
  ]

  others_place :
      (outs : List (List Gf)) (r : ℕ)
      → k ≤ r
      → get_or (put_outputs shards missing outs) r none ≡ get_or shards r none
  others_place outs r p =
      put_outputs_other shards missing outs r
        (All-and missing (λ i low e. absurd (omega arith)) (Between-All 0 k missing missing_low))

  -- Nothing is missing.
  nothing_missing :
      length missing ≡ 0 → (r : ℕ) → r < k → get_or shards r none ≡ some (shard_at full r)
  nothing_missing e r p = elim (Bool-cases (get_or present r false)) [
    | inl at_hand ↦ received.here r (omega arith) at_hand
    | inr lost ↦ absurd (
        missing_data-All present (λ i. ⊥) k 0 (none_of missing e) r (omega arith) (omega arith)
          lost)
  ]
    where
      none_of : (xs : List ℕ) → length xs ≡ 0 → All (λ i. ⊥) xs
      none_of [] e = tt
      none_of (x ∷ xs) e = absurd (omega arith)

  -- Of the shards of a codeword, some of them lost, but no more than there are parity shards, the data
  -- shards come back, and the parity shards stay as they are.
  pub reconstruct_codeword :
      (restored : List (Option (List Gf))) × (reconstruct rs shards present ≡ done restored)
      × ((r : ℕ) → r < k → get_or restored r none ≡ some (shard_at full r))
      × ((r : ℕ) → k ≤ r → get_or restored r none ≡ get_or shards r none)
  reconstruct_codeword = elim (Bool-cases (length missing == 0)) [
    | inl complete ↦
        (shards, reconstruct_runs ∙ rw complete, nothing_missing (==→eq _ 0 complete), λ r p. refl)
    | inr lacking ↦
        let (outs, e, o) = recovered in
        (
          put_outputs shards missing outs,
          reconstruct_runs ∙ rw lacking e,
          recovered_place outs o,
          others_place outs,
        )
  ]
