-- ===== src/Control/Framing.antt =====
-- The frames of the control stream: what a receiver reads from what a sender built, the frames that
-- make a receiver panic, and the sequence numbers.
use moonparty.Base.{
  ℕ, zero, suc, ◌+◌, ◌≤◌, ◌<◌, ◌≡◌, ◌≢◌, refl, ap, ◌∙◌, true, some, List, [], ◌∷◌, ◌++◌, arith,
  length, take_all, get_or,
}
use moonparty.Base.Bytes.{u32, le16, le16_at, le32_at, slice}
use moonparty.Control.{Stream}
use moonparty.Control.Message.{build_encrypted_packet, decrypt_message, ok, panic}
use moonparty.Control.Receive.{process_message, handle_packet, inner_payload}

abbrev inner_of : ℕ → List ℕ → List ℕ
inner_of ptype payload = le16 ptype ++ le16 (length payload) ++ payload

-- The receiver's decryption of a built packet gives back the inner header and the payload.
decrypt_message-build_encrypted_packet :
    (s : Stream) (ptype : ℕ) (payload : List ℕ)
    → length payload < 65512
    → decrypt_message (build_encrypted_packet s ptype payload).1 ≡ ok (inner_of ptype payload)
unfolding decrypt_message build_encrypted_packet slice
decrypt_message-build_encrypted_packet s ptype payload h =
    ground (arith, take_all (4 + length payload) (inner_of ptype payload))

inner_payload-inner_of :
    (ptype : ℕ) (payload : List ℕ)
    → length payload < 65512
    → inner_payload (inner_of ptype payload) ≡ some payload
unfolding inner_payload slice
inner_payload-inner_of ptype payload h = ground (arith, take_all (length payload) payload)

process_message-frame :
    (r : Stream) (d inner payload : List ℕ)
    → r.encrypted ≡ true
    → 2 ≤ length d
    → le16_at d 0 ≡ 1
    → decrypt_message d ≡ ok inner
    → 2 ≤ length inner
    → inner_payload inner ≡ some payload
    → process_message r d ≡ ok (handle_packet r (le16_at inner 0) payload)
unfolding process_message
process_message-frame r d inner payload e hd ht hc hi hp = ground arith

build_encrypted_packet-header :
    (s : Stream) (ptype : ℕ) (payload : List ℕ)
    → let d = (build_encrypted_packet s ptype payload).1 in (2 ≤ length d) × (le16_at d 0 ≡ 1)
unfolding build_encrypted_packet
build_encrypted_packet-header s ptype payload = (omega arith, refl)

-- A message of a type and a length that fit their fields, framed by one encrypted stream and
-- received by another, is handled there as that type with that payload.
pub process_message-build_encrypted_packet :
    (s r : Stream) (ptype : ℕ) (payload : List ℕ)
    → ptype < 65536
    → length payload < 65512
    → r.encrypted ≡ true
    → process_message r (build_encrypted_packet s ptype payload).1
      ≡ ok (handle_packet r ptype payload)
process_message-build_encrypted_packet s r ptype payload hp hl e =
    let (long, marked) = build_encrypted_packet-header s ptype payload in
    process_message-frame r _ (inner_of ptype payload) payload e long marked
      (decrypt_message-build_encrypted_packet s ptype payload hl) (omega arith)
      (inner_payload-inner_of ptype payload hl)
    ∙ ap (λ (t : ℕ). ok (handle_packet r t payload)) (omega arith)

-- On an encrypted stream a received frame of at least eight bytes that is marked as encrypted, holds
-- the length that it states, and states less than the twenty bytes of the sequence number and the
-- tag, makes the receiver panic.
pub process_message_short :
    (r : Stream) (d : List ℕ)
    → r.encrypted ≡ true
    → 8 ≤ length d
    → le16_at d 0 ≡ 1
    → le16_at d 2 < 20
    → 4 + le16_at d 2 ≤ length d
    → process_message r d ≡ panic
unfolding process_message decrypt_message slice
process_message_short r d e h8 ht hs hl = ground arith

-- The packets of messages sent in a row.
pub send_all : Stream → List (ℕ × List ℕ) → List (List ℕ)
send_all s [] = []
send_all s ((ptype, payload) ∷ rest) =
    let (s', packet) = build_encrypted_packet s ptype payload in packet ∷ send_all s' rest

seq_at :
    (s : Stream) (ptype : ℕ) (payload : List ℕ)
    → (le32_at (build_encrypted_packet s ptype payload).1 4 ≡ u32 (s.current_seq + 1))
      × ((build_encrypted_packet s ptype payload).0.current_seq ≡ u32 (s.current_seq + 1))
unfolding build_encrypted_packet
seq_at s ptype payload = (omega arith, refl)

send_all_seq :
    (s : Stream) (msgs : List (ℕ × List ℕ)) (k : ℕ)
    → k < length msgs
    → le32_at (get_or (send_all s msgs) k []) 4 ≡ u32 (s.current_seq + 1 + k)
unfolding send_all
send_all_seq s [] k h = absurd (omega arith)
send_all_seq s ((ptype, payload) ∷ rest) zero h = omega (arith, (seq_at s ptype payload).0)
send_all_seq s ((ptype, payload) ∷ rest) (suc k) h = omega (
  arith,
  send_all_seq (build_encrypted_packet s ptype payload).0 rest k (omega arith),
  (seq_at s ptype payload).1,
)

-- Of the messages that a stream sends in a row, the one at place `k` carries the sequence number
-- that is `k + 1` above the stream's, modulo 2 ^ 32, and two that are less than 2 ^ 32 places apart
-- carry different numbers.
pub send_all_distinct :
    (s : Stream) (msgs : List (ℕ × List ℕ)) (j k : ℕ)
    → j < k
    → k < length msgs
    → k < j + 4294967296
    → let seq = λ (i : ℕ). le32_at (get_or (send_all s msgs) i []) 4 in
      (seq k ≡ u32 (s.current_seq + 1 + k)) × (seq j ≢ seq k)
send_all_distinct s msgs j k hj hk near =
    let ej = send_all_seq s msgs j (omega arith) in
    let ek = send_all_seq s msgs k hk in (ek, λ e. omega arith)
