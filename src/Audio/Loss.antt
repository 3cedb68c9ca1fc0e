-- ===== src/Audio/Loss.antt =====
-- The count of lost packets, and the packets dropped at the start of the stream.
use moonparty.Base.{
  ℕ, ◌+◌, ◌-◌, ◌<◌, ◌≤◌, ◌≡◌, ◌≢◌, refl, ◌∙◌, inl, inr, List, [], ◌∷◌, map, arith, leb, ◌==◌, ◌&&◌,
  if◌then◌else◌, length, get_or,
}
use moonparty.Base.Bytes.{u16, u32, be16_at}
use moonparty.Crypto.Ciphers.{Aes}
use moonparty.Audio.{Stream, Read, datagram, receive, accept, note_sequence}
use moonparty.Audio.Queue.{receive_all, accept-cases, counted}

-- Datagrams that arrive in order after the packet of the index `last`, with the index of the last
-- one and the number of those missing between them. A packet carries its index in 16 bits, and
-- neither 0 nor a gap of 2 ^ 16 occurs.
pub data Run : ℕ → List Read → ℕ → ℕ → Type 0 where
  stop : {last : ℕ} → Run last [] last 0
  next :
      {bytes : List ℕ} {reads : List Read} {last i end lost : ℕ}
      → 12 ≤ length bytes
      → be16_at bytes 2 ≡ u16 i
      → last < i
      → i ≤ last + 65536
      → u16 i ≢ 0
      → Run i reads end lost
      → Run last (datagram bytes ∷ reads) end (i - last - 1 + lost)

-- The fields that the count concerns.
abbrev IsAt : Stream → ℕ → ℕ → Type 0
IsAt s last dropped =
    (s.packets_to_drop ≡ 0) × (s.last_seq ≡ u16 last) × (s.dropped_packets ≡ dropped)

note_sequence-IsAt :
    (s : Stream) (last i dropped : ℕ)
    → IsAt s last dropped
    → dropped < 4294967296
    → u16 last ≢ 0
    → last < i
    → i ≤ last + 65536
    → IsAt (note_sequence s (u16 i)) i (u32 (dropped + (i - last - 1)))
unfolding note_sequence
note_sequence-IsAt s last i dropped (d, l, e) fits nz low high = ground arith

accept-IsAt :
    (aes : Aes) (s : Stream) (bytes : List ℕ) (last dropped : ℕ)
    → IsAt (note_sequence s (be16_at bytes 2)) last dropped
    → IsAt (accept aes s bytes) last dropped
accept-IsAt aes s bytes last dropped h = elim (accept-cases aes s bytes) [
  | inl e ↦ rw e h
  | inr (audio, e) ↦ rw e (ground (arith, h))
]

receive_accepts :
    (aes : Aes) (s : Stream) (bytes : List ℕ)
    → 12 ≤ length bytes
    → s.packets_to_drop ≡ 0
    → receive aes s (datagram bytes) ≡ accept aes (counted s) bytes
unfolding receive
receive_accepts aes s bytes h z = ground arith

receive-IsAt :
    (aes : Aes) (s : Stream) (bytes : List ℕ) (last i dropped : ℕ)
    → 12 ≤ length bytes
    → be16_at bytes 2 ≡ u16 i
    → IsAt s last dropped
    → dropped < 4294967296
    → u16 last ≢ 0
    → last < i
    → i ≤ last + 65536
    → IsAt (receive aes s (datagram bytes)) i (u32 (dropped + (i - last - 1)))
receive-IsAt aes s bytes last i dropped long at h fits nz low high =
    rw (receive_accepts aes s bytes long h.0) (
      accept-IsAt aes (counted s) bytes i _
        (rw at (note_sequence-IsAt (counted s) last i dropped h fits nz low high)))

Run-lost :
    (aes : Aes) (s : Stream) (reads : List Read) (last end lost dropped : ℕ)
    → IsAt s last dropped
    → dropped < 4294967296
    → u16 last ≢ 0
    → Run last reads end lost
    → IsAt (receive_all aes s reads) end (u32 (dropped + lost))
unfolding receive_all
Run-lost aes s _ last _ _ dropped h fits nz stop = (h.0, h.1, h.2 ∙ same dropped fits)
  where
    same : (n : ℕ) → n < 4294967296 → n ≡ u32 (n + 0)
    same n lt = omega arith
Run-lost aes s _ last end _ dropped h fits nz
      (next {bytes = bytes} {reads = reads} {i = i} {lost = lost} long at low high nz' run) =
    let (a, b, c) =
      Run-lost aes (receive aes s (datagram bytes)) reads i end lost
        (u32 (dropped + (i - last - 1)))
        (receive-IsAt aes s bytes last i dropped long at h fits nz low high) (omega arith) nz'
        run in
    (a, b, c ∙ sum dropped (i - last - 1) lost)
  where
    sum : (a b c : ℕ) → u32 (u32 (a + b) + c) ≡ u32 (a + (b + c))
    sum a b c = omega arith

-- Past the start, datagrams that arrive in order, none of them with the number 0, after a packet
-- whose number is not 0, add to the count of lost packets, in 32 bits, the number of those missing
-- between them, whether the stream is encrypted or not.
pub receive_all_lost :
    (aes : Aes) (s : Stream) (reads : List Read) (last end lost : ℕ)
    → s.packets_to_drop ≡ 0
    → s.last_seq ≡ u16 last
    → u16 last ≢ 0
    → s.dropped_packets < 4294967296
    → Run last reads end lost
    → ((receive_all aes s reads).dropped_packets ≡ u32 (s.dropped_packets + lost))
      × ((receive_all aes s reads).last_seq ≡ u16 end)
receive_all_lost aes s reads last end lost d l nz fits run =
    let (_, seq, count) =
      Run-lost aes s reads last end lost s.dropped_packets (d, l, refl) fits nz run in
    (count, seq)

-- The audio packets, by their payload type, among datagrams that hold a header.
unfoldable pub count_audio : List (List ℕ) → ℕ
count_audio [] = 0
count_audio (bytes ∷ ds) =
    let rest = count_audio ds in
    if leb 12 (length bytes) && (get_or bytes 1 0 == 97) then rest + 1 else rest

receive_dropping :
    (aes : Aes) (s : Stream) (bytes : List ℕ)
    → 0 < s.packets_to_drop
    → let t = receive aes s (datagram bytes) in
      (t.packets_to_drop + count_audio (bytes ∷ []) ≡ s.packets_to_drop)
      × (t.packet_queue ≡ s.packet_queue)
      × (t.played ≡ s.played)
unfolding receive count_audio
receive_dropping aes s bytes h = ground arith

count_audio-cons :
    (bytes : List ℕ) (ds : List (List ℕ))
    → count_audio (bytes ∷ ds) ≡ count_audio (bytes ∷ []) + count_audio ds
unfolding count_audio
count_audio-cons bytes ds = ground arith

-- While fewer audio packets have arrived than are to be dropped, nothing is queued or played, and
-- only the audio packets are counted down, whatever else arrives between them.
pub receive_all_dropping :
    (aes : Aes) (s : Stream) (ds : List (List ℕ))
    → count_audio ds < s.packets_to_drop
    → let t = receive_all aes s (map datagram ds) in
      (t.packets_to_drop + count_audio ds ≡ s.packets_to_drop)
      × (t.packet_queue ≡ s.packet_queue)
      × (t.played ≡ s.played)
unfolding receive_all
receive_all_dropping aes s [] h = (unfold count_audio in omega arith, refl, refl)
receive_all_dropping aes s (bytes ∷ ds) h =
    let split = count_audio-cons bytes ds in
    let (a, b, c) = receive_dropping aes s bytes (omega arith) in
    let (a', b', c') = receive_all_dropping aes (receive aes s (datagram bytes)) ds (omega arith) in
    (omega arith, b' ∙ b, c' ∙ c)
