-- ===== src/Control/Receive.antt =====
-- moonlight-common-go/control/stream.go: the messages received.
use moonparty.Base.{
  ℕ, ◌+◌, Bool, not, ◌&&◌, Option, none, some, List, [], ◌∷◌, ltb, leb, ◌==◌, ◌!=◌, if◌then◌else◌,
  length, drop, get_or,
}
use moonparty.Base.Bytes.{u16, le16_at, be32_at, slice}
use moonparty.Control.{
  Stream, Chromaticity, HdrMetadata, ConnectionStatus, packet_type, hdr_mode, rumble_data,
  rumble_triggers, termination,
}
use moonparty.Control.Message.{Outcome, ok, err, panic, decrypt_message}

-- The calls of `types.ConnectionCallbacks` that the stream makes.
pub data Callback : Type 0 where
  set_hdr_mode : Bool → Callback
  rumble : ℕ → ℕ → ℕ → Callback
  trigger_rumble : ℕ → ℕ → ℕ → Callback
  connection_terminated : ℕ → Callback
  connection_status_update : ConnectionStatus → Callback

abbrev point_at : List ℕ → ℕ → Chromaticity
point_at d i = record { x = le16_at d i; y = le16_at d (i + 2) }

abbrev metadata_of : List ℕ → HdrMetadata
metadata_of d = record {
  red = point_at d 1;
  green = point_at d 5;
  blue = point_at d 9;
  white_point = point_at d 13;
  max_display_luminance = le16_at d 17;
  min_display_luminance = le16_at d 19;
}

-- The first `if` of `handlePacket`.
unfoldable pub handle_hdr : Stream → List ℕ → Stream × List Callback
handle_hdr s d =
    let enabled = get_or d 0 0 != 0 in
    let s' : Stream = record s { hdr_enabled = enabled } in
    (
      if s.is_sunshine && leb 21 (length d) then record s' { hdr_metadata = metadata_of d } else s',
      set_hdr_mode enabled ∷ [],
    )

-- The error code of a termination: four bytes big-endian, else two little-endian, else 0.
unfoldable pub termination_code : List ℕ → ℕ
termination_code d =
    if leb 4 (length d) then be32_at d 0 else if leb 2 (length d) then le16_at d 0 else 0

-- The four `if` statements test for four types that differ, so one of them runs at most.
unfoldable pub handle_packet : Stream → ℕ → List ℕ → Stream × List Callback
unfolding handle_hdr termination_code
handle_packet s ptype d =
    if not s.has_packet_types
    then (s, [])
    else if (ptype == packet_type s hdr_mode) && leb 1 (length d)
    then handle_hdr s d
    else if (ptype == packet_type s rumble_data) && leb 10 (length d)
    then (s, rumble (le16_at d 4) (le16_at d 6) (le16_at d 8) ∷ [])
    else if (ptype == packet_type s rumble_triggers) && leb 6 (length d)
    then (s, trigger_rumble (le16_at d 0) (le16_at d 2) (le16_at d 4) ∷ [])
    else if ptype == packet_type s termination
    then (s, connection_terminated (termination_code d) ∷ [])
    else (s, [])

-- The payload of a decrypted message: absent if the message does not hold the stated length. The
-- end of the slice is computed in 16 bits.
unfoldable pub inner_payload : List ℕ → Option (List ℕ)
unfolding slice
inner_payload d =
    if ltb (length d) 4
    then some []
    else if ltb (length d) (4 + le16_at d 2)
    then some []
    else slice d 4 (u16 (4 + le16_at d 2))

-- A plaintext message to an encrypted stream, and what does not decrypt, is dropped.
unfoldable pub process_message : Stream → List ℕ → Outcome (Stream × List Callback)
process_message s d =
    if ltb (length d) 2
    then ok (s, [])
    else if s.encrypted
    then (if le16_at d 0 == 0x0001
        then elim (decrypt_message d) [
          | panic ↦ panic
          | err ↦ ok (s, [])
          | ok inner ↦ if ltb (length inner) 2 then ok (s, []) else elim (inner_payload inner) [
            | none ↦ panic
            | some payload ↦ ok (handle_packet s (le16_at inner 0) payload)
          ]
        ]
        else ok (s, []))
    else ok (handle_packet s (le16_at d 0) (drop 2 d))
