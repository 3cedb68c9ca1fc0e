-- ===== src/Video.antt =====
-- moonlight-common-go/video/stream.go: from RTP packets to frames for the decoder.
-- The receive loop reads every datagram into one buffer, and the payload of a packet that is not
-- encrypted is a slice of that buffer: it is a reference here, which is read when the decoder is
-- called. Times and log messages are left out.
pub mod Assembly
pub mod Overwriting
pub mod KeyFrames
use moonparty.Base.{
  ℕ, zero, suc, ◌+◌, ◌-◌, ◌/◌, ◌%◌, Bool, true, false, not, ◌&&◌, Option, none, some, List, [], ◌∷◌,
  ◌++◌, map, ltb, leb, ◌==◌, ◌!=◌, if◌then◌else◌, length, get_or, take, drop, replicate,
}
use moonparty.Base.Bytes.{u32, be16_at, be32_at, le32_at}
use moonparty.Crypto.{Result, done, failed, panicked, new_context, decrypt_gcm}
use moonparty.Crypto.Ciphers.{Aes}

-- Bytes of its own, or the bytes of the buffer from the header's end on, by their number.
pub data Payload : Type 0 where
  owned : List ℕ → Payload
  in_buffer : ℕ → Payload

pub record RtpPacket : Type 0 where
  pub packet_type : ℕ
  pub sequence_number : ℕ
  pub timestamp : ℕ
  pub ssrc : ℕ
  pub payload : Payload

pub record FrameAssembly : Type 0 where
  pub frame_number : ℕ
  pub is_idr : Bool
  pub packets : List RtpPacket
  pub received_packets : ℕ
  pub data_size : ℕ

pub record DecodeUnit : Type 0 where
  pub frame_number : ℕ
  pub is_idr : Bool
  pub buffer_list : List Payload

-- What the decoder sees of a unit when it is called.
pub record Submission : Type 0 where
  pub frame_number : ℕ
  pub is_idr : Bool
  pub buffers : List (List ℕ)

pub record Stream : Type 0 where
  pub encrypted : Bool
  pub aes_key : List ℕ
  pub is_direct : Bool
  pub buffer : List ℕ
  pub current_frame : Option FrameAssembly
  pub frame_queue : List DecodeUnit
  pub waiting_for_idr : Bool
  pub received_data : Bool
  pub received_full_frame : Bool
  pub received_packets : ℕ
  pub received_frames : ℕ
  pub submitted_frames : ℕ
  pub dropped_frames : ℕ
  pub requested_idr_frames : ℕ
  pub submitted : List Submission

abbrev pub contents : List ℕ → Payload → List ℕ
contents buffer (owned bytes) = bytes
contents buffer (in_buffer n) = take n (drop 12 buffer)

abbrev pub payload_length : Payload → ℕ
payload_length (owned bytes) = length bytes
payload_length (in_buffer n) = n

-- `callbacks.SubmitDecodeUnit(unit)`, and the count.
abbrev pub decode_unit : Stream → DecodeUnit → Stream
decode_unit s unit = record s {
  submitted =
      s.submitted
      ++ (record {
        frame_number = unit.frame_number;
        is_idr = unit.is_idr;
        buffers = map (contents s.buffer) unit.buffer_list;
      })
        ∷ [];
  submitted_frames = u32 (s.submitted_frames + 1);
}

unfoldable pub submit_frame : Stream → FrameAssembly → Stream
submit_frame s frame =
    let unit : DecodeUnit = record {
      frame_number = frame.frame_number;
      is_idr = frame.is_idr;
      buffer_list = map (λ p. p.payload) frame.packets;
    } in
    if length frame.packets == 0
    then s
    else if s.is_direct
    then decode_unit s unit
    else if ltb (length s.frame_queue) 16
    then record s { frame_queue = s.frame_queue ++ unit ∷ [] }
    else record s { dropped_frames = u32 (s.dropped_frames + 1) }

-- `packet.Header.PacketType & 0x80` and `& 0x40`.
abbrev pub is_idr_packet : RtpPacket → Bool
is_idr_packet p = p.packet_type / 128 % 2 == 1

abbrev pub is_end_of_frame : RtpPacket → Bool
is_end_of_frame p = p.packet_type / 64 % 2 == 1

-- An IDR packet ends the waiting.
abbrev pub note_idr : Stream → Bool → Stream
note_idr s is_idr =
    if is_idr
    then record s {
      waiting_for_idr = false;
      received_full_frame = true;
      received_frames = u32 (s.received_frames + 1);
    }
    else s

abbrev pub new_frame : ℕ → Bool → FrameAssembly
new_frame index is_idr = record {
  frame_number = index;
  is_idr = is_idr;
  packets = [];
  received_packets = 0;
  data_size = 0;
}

-- The stream and the frame that the packet of the frame `index` belongs to. A frame that another
-- one follows is submitted as it is.
unfoldable pub frame_for : Stream → ℕ → Bool → Stream × FrameAssembly
unfolding submit_frame
frame_for s index is_idr = elim s.current_frame [
  | none ↦ (s, new_frame index is_idr)
  | some frame ↦
      if frame.frame_number == index
      then (s, frame)
      else (submit_frame s frame, new_frame index is_idr)
]

abbrev pub add_packet : FrameAssembly → RtpPacket → FrameAssembly
add_packet frame p = record frame {
  packets = frame.packets ++ p ∷ [];
  received_packets = frame.received_packets + 1;
  data_size = frame.data_size + payload_length p.payload;
}

unfoldable pub process_packet : Stream → RtpPacket → Stream
unfolding frame_for submit_frame
process_packet s p =
    let bytes = contents s.buffer p.payload in
    let is_idr = is_idr_packet p in
    let (s', old) = frame_for (note_idr s is_idr) (le32_at bytes 0) is_idr in
    let frame = add_packet old p in
    if ltb (payload_length p.payload) 4
    then s
    else if s.waiting_for_idr && not is_idr
    then s
    else if is_end_of_frame p
    then record (submit_frame s' frame) { current_frame = none }
    else record s' { current_frame = some frame }

unfoldable pub request_idr_frame : Stream → Stream
request_idr_frame s = record s {
  waiting_for_idr = true;
  current_frame = none;
  requested_idr_frames = u32 (s.requested_idr_frames + 1);
}

pub data Parsed : Type 0 where
  parsed : RtpPacket → Parsed
  rejected crashed : Parsed

abbrev pub header_of : List ℕ → Payload → RtpPacket
header_of bytes payload = record {
  packet_type = get_or bytes 1 0;
  sequence_number = be16_at bytes 2;
  timestamp = be32_at bytes 4;
  ssrc = be32_at bytes 8;
  payload = payload;
}

-- The header of an encrypted packet is the vector and the tag.
unfoldable pub decrypt_packet : Aes → Stream → List ℕ → Option (Result (List ℕ))
unfolding new_context decrypt_gcm
decrypt_packet aes s bytes =
    if ltb (length bytes) 40 then none else elim (new_context aes s.aes_key) [
      | failed e ↦ some (failed e)
      | panicked ↦ some panicked
      | done c ↦ some (decrypt_gcm c (drop 28 bytes) (take 12 bytes) (take 16 (drop 12 bytes)) [])
    ]

-- A decrypted packet that is shorter than a header is a panic.
abbrev parse_plain : Option (Result (List ℕ)) → Parsed
parse_plain none = rejected
parse_plain (some (failed e)) = rejected
parse_plain (some panicked) = crashed
parse_plain (some (done bytes)) =
    if ltb (length bytes) 12 then crashed else parsed (header_of bytes (owned (drop 12 bytes)))

unfoldable pub parse_rtp_packet : Aes → Stream → List ℕ → Parsed
unfolding decrypt_packet
parse_rtp_packet aes s bytes =
    if ltb (length bytes) 12
    then rejected
    else if s.encrypted
    then parse_plain (decrypt_packet aes s bytes)
    else parsed (header_of bytes (in_buffer (length bytes - 12)))

-- How a round of the receive loop ends.
pub data Round : Type 0 where
  goes_on : Stream → Round
  ends panics : Round

abbrev pub after_parse : Stream → Parsed → Round
after_parse s rejected = goes_on s
after_parse s crashed = panics
after_parse s (parsed p) =
    goes_on (process_packet (record s { received_packets = u32 (s.received_packets + 1) }) p)

-- A read overwrites the start of the buffer. `late` says whether the first data came more than ten
-- seconds ago.
unfoldable pub receive : Aes → Stream → Bool → List ℕ → Round
unfolding parse_rtp_packet process_packet
receive aes s late bytes =
    let s' : Stream = record s {
      buffer = bytes ++ drop (length bytes) s.buffer;
      received_data = true;
    } in
    if not s.received_full_frame && s.received_data && late
    then ends
    else after_parse s' (parse_rtp_packet aes s' bytes)

-- One round of `decoderLoop`, where the queue is not empty.
unfoldable pub decode : Stream → Stream
decode s = elim s.frame_queue [
  | [] ↦ s
  | unit ∷ rest ↦ decode_unit (record s { frame_queue = rest }) unit
]
