-- ===== src/Control/Message.antt =====
-- moonlight-common-go/control/stream.go: the messages sent and the frames around them.
-- The encryption of the source is a placeholder: the "ciphertext" is the plaintext and the tag is
-- sixteen zeros, so the initialisation vector that it builds has no effect.
use moonparty.Base.{
  ℕ, ◌+◌, ◌-◌, Bool, true, Option, none, some, List, [], ◌∷◌, ◌++◌, ltb, ltb_ℤ, pos, if◌then◌else◌,
  length, replicate,
}
use moonparty.Base.Bytes.{u32, le16, le32, le16_at, slice}
use moonparty.Control.{Stream, packet_type, request_idr, start_b, invalidate_ref_frames, input_data}

pub data ControlError : Type 0 where
  not_connected write_failed input_unsupported : ControlError

-- The length that the outer header states, and the packet.
unfoldable pub build_encrypted_packet : Stream → ℕ → List ℕ → Stream × List ℕ
build_encrypted_packet s ptype payload =
    let inner = le16 ptype ++ le16 (length payload) ++ payload in
    let seq = u32 (s.current_seq + 1) in
    let outer_len = 4 + 16 + length inner in
    (
      record s { current_seq = seq },
      le16 0x0001 ++ le16 outer_len ++ le32 seq ++ replicate 16 0 ++ inner,
    )

-- The new state, the packet that was handed to the socket if there was one, and the error.
abbrev pub Sent : Type 0
Sent = Stream × Option (List ℕ) × Option ControlError

abbrev written : Stream → List ℕ → Bool → Sent
written s packet writes = (s, some packet, if writes then none else some write_failed)

unfoldable pub send_message : Stream → Bool → ℕ → List ℕ → Sent
unfolding build_encrypted_packet
send_message s writes ptype payload =
    if s.has_conn
    then (if s.encrypted
        then (let (s', packet) = build_encrypted_packet s ptype payload in written s' packet writes)
        else if ltb_ℤ s.app_version.major (pos 5)
        then written s (le16 ptype ++ le16 (length payload) ++ payload) writes
        else written s (le16 ptype ++ payload) writes)
    else (s, none, some not_connected)

unfoldable pub send_start_a : Stream → Bool → Sent
unfolding send_message
send_start_a s writes =
    if s.has_packet_types
    then send_message s writes (packet_type s start_b - 2) (0 ∷ 0 ∷ [])
    else (s, none, none)

unfoldable pub send_start_b : Stream → Bool → Sent
unfolding send_message
send_start_b s writes =
    if s.has_packet_types
    then send_message s writes (packet_type s start_b) (0 ∷ [])
    else (s, none, none)

-- `PutUint64` of a `uint32` leaves the upper four bytes zero.
unfoldable pub send_invalidate_ref_frames : Stream → Bool → ℕ → ℕ → Sent
unfolding send_message
send_invalidate_ref_frames s writes first last =
    send_message s writes (packet_type s invalidate_ref_frames)
      (le32 first ++ replicate 4 0 ++ le32 last ++ replicate 4 0 ++ replicate 8 0)

unfoldable pub request_idr_frame : Stream → Bool → Sent
unfolding send_message send_invalidate_ref_frames
request_idr_frame s writes =
    let s' : Stream = record s { idr_requested = true } in
    if s.has_packet_types
    then send_message s' writes (packet_type s request_idr) (0 ∷ 0 ∷ [])
    else send_invalidate_ref_frames s' writes 0 s.last_seen_frame

unfoldable pub send_input_packet : Stream → Bool → List ℕ → Sent
unfolding send_message
send_input_packet s writes payload =
    if ltb_ℤ s.app_version.major (pos 5)
    then (s, none, some input_unsupported)
    else send_message s writes (packet_type s input_data) payload

unfoldable pub send_periodic_ping : Stream → Bool → Sent
unfolding send_message
send_periodic_ping s writes = send_message s writes 0x0200 (le16 4 ++ replicate 6 0)

-- The outcome of a function that may panic on a slice out of bounds.
pub data Outcome {ℓ} (A : Type ℓ) : Type ℓ where
  ok : A → Outcome A
  err : Outcome A
  panic : Outcome A

abbrev or_panic {ℓ} : {A : Type ℓ} → Option A → Outcome A
or_panic none = panic
or_panic (some a) = ok a

-- The ciphertext between the tag and the stated end. A stated end before byte 24 is a panic.
unfoldable pub decrypt_message : List ℕ → Outcome (List ℕ)
unfolding slice
decrypt_message packet =
    if ltb (length packet) 8
    then err
    else let len = le16_at packet 2 in
      if ltb (length packet) (4 + len) then err else or_panic (slice packet 24 (4 + len))
