-- ===== src/Audio/Queue.antt =====
-- What a round of the receiver does to the queue, and the packets dropped at the start.
use moonparty.Base.{ℕ, ◌+◌, ◌≡◌, refl, ◌⊎◌, inl, inr, true, List, [], ◌∷◌, Option-cases}
use moonparty.Base.Bytes.{u32, be16_at}
use moonparty.Crypto.Ciphers.{Aes}
use moonparty.Audio.{Stream, Read, receive, accept, audio_of, note_sequence, process_audio}

-- The stream after a datagram has been counted.
abbrev pub counted : Stream → Stream
counted s = record s { received_data = true; received_packets = u32 (s.received_packets + 1) }

unfoldable pub receive_all : Aes → Stream → List Read → Stream
receive_all aes s [] = s
receive_all aes s (r ∷ reads) = receive_all aes (receive aes s r) reads

-- A packet is accepted by noting its sequence number and then doing nothing more or handing its
-- audio on.
pub accept-cases :
    (aes : Aes) (s : Stream) (bytes : List ℕ)
    → let noted = note_sequence s (be16_at bytes 2) in
      (accept aes s bytes ≡ noted)
      ⊎ ((audio : List ℕ) × (accept aes s bytes ≡ process_audio noted audio))
unfolding accept
accept-cases aes s bytes = elim (Option-cases (audio_of aes s bytes (be16_at bytes 2))) [
  | inl e ↦ inl (rw (e, accept) refl)
  | inr (audio, e) ↦ inr (audio, rw (e, accept) refl)
]
