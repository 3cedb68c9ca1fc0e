-- ===== src/Audio.antt =====
-- moonlight-common-go/audio/stream.go: the reception of audio packets.
-- A read from the socket is an argument, and a call of the decoder is an entry of `played`. The
-- receive loop, the decoder loop and the ping loop each make one step at a time.
pub mod Loss
pub mod Queue
use moonparty.Base.{
  ℕ, zero, suc, ◌+◌, ◌-◌, ◌*◌, ◌/◌, ◌%◌, Bool, true, false, ◌&&◌, Option, none, some, List, [], ◌∷◌,
  ◌++◌, ltb, leb, ◌==◌, ◌!=◌, if◌then◌else◌, length, get_or, drop, replicate,
}
use moonparty.Base.Bytes.{u16, u32, be32, be16_at, be32_at}
use moonparty.Crypto.{CryptoError, Result, done, failed, panicked, new_context, decrypt_cbc}
use moonparty.Crypto.Ciphers.{Aes}

pub record Stream : Type 0 where
  pub encrypted : Bool
  pub aes_key : List ℕ
  pub ri_key_id : ℕ
  pub ping_payload : List ℕ
  pub ping_seq_num : ℕ
  pub packet_duration : ℕ
  pub is_direct : Bool
  pub received_data : Bool
  pub last_seq : ℕ
  pub packets_to_drop : ℕ
  pub packet_queue : List (List ℕ)
  pub received_packets : ℕ
  pub dropped_packets : ℕ
  pub played : List (List ℕ)

-- The payload of the pings is given as its bytes.
unfoldable pub new_stream : Bool → List ℕ → List ℕ → List ℕ → Stream
new_stream encrypted key iv ping_payload = record {
  encrypted = encrypted;
  aes_key = key;
  ri_key_id = if leb 4 (length iv) then be32_at iv 0 else 0;
  ping_payload = if length ping_payload == 16 then ping_payload else replicate 16 0;
  ping_seq_num = 0;
  packet_duration = 0;
  is_direct = false;
  received_data = false;
  last_seq = 0;
  packets_to_drop = 0;
  packet_queue = [];
  received_packets = 0;
  dropped_packets = 0;
  played = [];
}

-- `Start` after the socket is open, for a decoder that submits directly or not and the duration of
-- a packet in milliseconds. `none` is the panic of a division by 0.
unfoldable pub start : Stream → Bool → ℕ → Option Stream
start s is_direct zero = none
start s is_direct (suc d) =
    some
      (record s { is_direct = is_direct; packet_duration = suc d; packets_to_drop = 500 / suc d })

unfoldable pub get_pending_duration : Stream → ℕ
get_pending_duration s = length s.packet_queue * s.packet_duration

-- The audio in a packet of an encrypted stream.
unfoldable pub decrypt_packet : Aes → Stream → List ℕ → ℕ → Option (Result (List ℕ))
unfolding new_context decrypt_cbc
decrypt_packet aes s bytes seq_num =
    let iv = be32 (u32 (s.ri_key_id + seq_num)) ++ replicate 12 0 in
    if leb (length bytes) 12 then none else elim (new_context aes s.aes_key) [
      | failed e ↦ some (failed e)
      | panicked ↦ some panicked
      | done c ↦ some (decrypt_cbc c (drop 12 bytes) iv)
    ]

-- The select of `receiveLoop`: a full queue of 30 loses its oldest packet.
unfoldable pub enqueue : List (List ℕ) → List ℕ → List (List ℕ)
enqueue queue audio =
    if ltb (length queue) 30 then queue ++ audio ∷ [] else drop 1 queue ++ audio ∷ []

abbrev pub process_audio : Stream → List ℕ → Stream
process_audio s audio =
    if s.is_direct
    then record s { played = s.played ++ audio ∷ [] }
    else record s { packet_queue = enqueue s.packet_queue audio }

-- `seqNum - s.lastSeq - 1` in 16 bits.
abbrev pub missing : ℕ → ℕ → ℕ
missing last_seq seq_num = u16 (seq_num + 65536 + 65535 - last_seq)

-- A sequence number is noted; a gap after the last one counts as lost packets, if there was one.
unfoldable pub note_sequence : Stream → ℕ → Stream
note_sequence s seq_num =
    let s' : Stream = record s { last_seq = seq_num } in
    if (s.last_seq != 0) && (seq_num != u16 (s.last_seq + 1))
    then record s' { dropped_packets = u32 (s.dropped_packets + missing s.last_seq seq_num) }
    else s'

abbrev value_of : Option (Result (List ℕ)) → Option (List ℕ)
value_of (some (done audio)) = some audio
value_of _ = none

-- The audio of a packet, if it can be decrypted.
unfoldable pub audio_of : Aes → Stream → List ℕ → ℕ → Option (List ℕ)
unfolding decrypt_packet
audio_of aes s bytes seq_num =
    if s.encrypted then value_of (decrypt_packet aes s bytes seq_num) else some (drop 12 bytes)

-- The rest of the loop body, after the initial packets have been dropped.
unfoldable pub accept : Aes → Stream → List ℕ → Stream
unfolding note_sequence audio_of enqueue
accept aes s bytes =
    let seq_num = be16_at bytes 2 in
    let s' = note_sequence s seq_num in
    elim (audio_of aes s bytes seq_num) [ none ↦ s' | some audio ↦ process_audio s' audio ]

-- What a read gives: nothing before the deadline, or a datagram.
pub data Read : Type 0 where
  timeout : Read
  datagram : List ℕ → Read

-- One round of `receiveLoop`. A datagram is not longer than the buffer.
unfoldable pub receive : Aes → Stream → Read → Stream
unfolding accept
receive aes s timeout = if s.received_data then record s { packets_to_drop = 0 } else s
receive aes s (datagram bytes) =
    let s' : Stream = record s {
      received_data = true;
      received_packets = u32 (s.received_packets + 1);
    } in
    if ltb (length bytes) 12
    then s
    else if ltb 0 s.packets_to_drop
    then (if get_or bytes 1 0 == 97
        then record s' { packets_to_drop = s.packets_to_drop - 1 }
        else s')
    else accept aes s' bytes

-- One round of `decoderLoop`, where the queue is not empty: no bytes are a lost packet, for which
-- the decoder gets nothing.
unfoldable pub decode : Stream → Stream
decode s = elim s.packet_queue [
  | [] ↦ s
  | audio ∷ rest ↦ record s { packet_queue = rest; played = s.played ++ audio ∷ [] }
]

-- One round of `pingLoop`, and the packet sent.
unfoldable pub ping : Stream → Stream × List ℕ
ping s =
    let seq = u32 (s.ping_seq_num + 1) in
    if get_or s.ping_payload 0 0 != 0
    then (record s { ping_seq_num = seq }, s.ping_payload ++ be32 seq)
    else (s, 0x50 ∷ 0x49 ∷ 0x4E ∷ 0x47 ∷ [])
