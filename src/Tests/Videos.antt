-- ===== src/Tests/Videos.antt =====
-- A video stream that is not encrypted and submits directly.
use moonparty.Base.{ℕ, ◌≡◌, refl, true, false, none, List, [], ◌∷◌, ◌++◌, arith, replicate}
use moonparty.Crypto.Ciphers.{Aes}
use moonparty.Video.{Stream, RtpPacket, owned, goes_on, request_idr_frame}
use moonparty.Video.Assembly.{receive_all}
use moonparty.Video.Overwriting.{receive_all_overwritten}
use moonparty.Video.KeyFrames.{no_idr, process_all, process_all-request_idr_frame}

abbrev no_aes : Aes
no_aes = record { new_cipher = λ k. none; new_gcm = λ b. none }

abbrev playing : Stream
playing = record {
  encrypted = false;
  aes_key = [];
  is_direct = true;
  buffer = replicate 24 0;
  current_frame = none;
  frame_queue = [];
  waiting_for_idr = false;
  received_data = true;
  received_full_frame = true;
  received_packets = 0;
  received_frames = 1;
  submitted_frames = 0;
  dropped_frames = 0;
  requested_idr_frames = 0;
  submitted = [];
}

-- A datagram of frame 7 with one byte of video, by its type and that byte.
abbrev part : ℕ → ℕ → List ℕ
part type byte = 128 ∷ type ∷ replicate 10 0 ++ 7 ∷ 0 ∷ 0 ∷ 0 ∷ byte ∷ []

receive_all_overwritten_example :
    (t : Stream) × (receive_all no_aes playing (part 0 1 ∷ part 64 2 ∷ []) ≡ goes_on t)
receive_all_overwritten_example =
    let (t, e, _) =
      receive_all_overwritten no_aes playing 7 5 (part 0 1 ∷ []) (part 64 2) refl refl refl refl
        (omega arith) ((refl, refl, refl, refl), omega arith) (refl, refl, refl, refl) in
    (t, e)

abbrev packet : ℕ → RtpPacket
packet type = record {
  packet_type = type;
  sequence_number = 1;
  timestamp = 0;
  ssrc = 0;
  payload = owned (8 ∷ 0 ∷ 0 ∷ 0 ∷ 9 ∷ []);
}

process_all-request_idr_frame_example :
    process_all (request_idr_frame playing) (packet 0 ∷ packet 64 ∷ []) ≡ request_idr_frame playing
unfolding no_idr
process_all-request_idr_frame_example =
    (process_all-request_idr_frame playing (packet 0 ∷ packet 64 ∷ []) (packet 128) refl refl refl
      (omega arith)).0
