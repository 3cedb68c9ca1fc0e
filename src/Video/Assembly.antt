-- ===== src/Video/Assembly.antt =====
-- A frame of several packets that are not encrypted.
use moonparty.Base.{
  ℕ, zero, suc, ◌+◌, ◌-◌, ◌/◌, ◌%◌, ◌≤◌, ◌≡◌, refl, ap, ◌∙◌, Bool, true, false, not, ◌&&◌, none,
  some, List, [], ◌∷◌, ◌++◌, map, arith, length, get_or, take, drop, replicate, length-drop,
  take-append_self, if◌then◌else◌, ◌⊎◌, inl, inr,
}
use moonparty.Base.Bytes.{u32, le32_at}
use moonparty.Crypto.Ciphers.{Aes}
use moonparty.Video.{
  Stream, RtpPacket, in_buffer, FrameAssembly, Round, after_parse, parsed, goes_on, ends, panics,
  receive, process_packet, parse_rtp_packet, submit_frame, frame_for, contents, header_of,
  is_end_of_frame, add_packet, new_frame,
}

-- Reads in a row, where the first frame is not late.
unfoldable pub receive_all : Aes → Stream → List (List ℕ) → Round
receive_all aes s [] = goes_on s
receive_all aes s (d ∷ ds) = elim (receive aes s false d) [
  | goes_on t ↦ receive_all aes t ds
  | ends ↦ ends
  | panics ↦ panics
]

-- A datagram of 12 + `n` bytes for the frame `index`, of no key frame; the last one is marked.
abbrev pub IsPart : ℕ → ℕ → Bool → List ℕ → Type 0
IsPart n index is_last d =
    (length d ≡ 12 + n)
    × (le32_at (drop 12 d) 0 ≡ index)
    × (get_or d 1 0 / 128 % 2 ≡ 0)
    × (get_or d 1 0 / 64 % 2 ≡ (if is_last then 1 else 0))

-- The stream after a datagram has been read into its buffer.
abbrev pub read_into : Stream → List ℕ → Stream
read_into s d = record s { buffer = d ++ drop (length d) s.buffer; received_data = true }

abbrev pub counted : Stream → Stream
counted s = record s { received_packets = u32 (s.received_packets + 1) }

parse_plain_packet :
    (aes : Aes) (s : Stream) (n : ℕ) (d : List ℕ)
    → s.encrypted ≡ false
    → length d ≡ 12 + n
    → parse_rtp_packet aes s d ≡ parsed (header_of d (in_buffer n))
unfolding parse_rtp_packet
parse_plain_packet aes s n d e h = ground (arith, length_less d n h)
  where
    length_less : (d : List ℕ) (n : ℕ) → length d ≡ 12 + n → length d - 12 ≡ n
    length_less d n h = omega arith

receive_in_time :
    (aes : Aes) (s : Stream) (d : List ℕ)
    → receive aes s false d ≡ after_parse (read_into s d) (parse_rtp_packet aes (read_into s d) d)
unfolding receive
receive_in_time aes s d = rw (not_late s.received_full_frame s.received_data) refl
  where
    not_late : (a b : Bool) → (not a && b && false) ≡ false
    not_late a b = ground arith

-- The round of a datagram that is not encrypted.
pub receive_plain :
    (aes : Aes) (s : Stream) (n : ℕ) (d : List ℕ)
    → s.encrypted ≡ false
    → length d ≡ 12 + n
    → receive aes s false d
      ≡ goes_on (process_packet (counted (read_into s d)) (header_of d (in_buffer n)))
receive_plain aes s n d e h =
    receive_in_time aes s d
    ∙ ap (after_parse (read_into s d)) (parse_plain_packet aes (read_into s d) n d e h)

drop-append : (n : ℕ) (xs ys : List ℕ) → n ≤ length xs → drop n (xs ++ ys) ≡ drop n xs ++ ys
drop-append zero xs ys h = refl
drop-append (suc n) [] ys h = absurd (omega arith)
drop-append (suc n) (x ∷ xs) ys h = drop-append n xs ys (omega arith)

take-append_all : (n : ℕ) (xs ys : List ℕ) → n ≡ length xs → take n (xs ++ ys) ≡ xs
take-append_all n xs ys e = rw e (take-append_self xs ys)

pub contents_read :
    (n : ℕ) (d rest : List ℕ) → length d ≡ 12 + n → contents (d ++ rest) (in_buffer n) ≡ drop 12 d
contents_read n d rest h =
    ap (take n) (drop-append 12 d rest (omega arith))
    ∙ take-append_all n (drop 12 d) rest (omega (arith, length-drop 12 d))

-- The stream holds `k` packets of the frame `index`, each of which refers to `n` bytes of the
-- buffer; or it holds no frame, and `k` is 0.
unfoldable pub IsHolding : Stream → ℕ → ℕ → ℕ → Type 0
IsHolding s index n k =
    (s.encrypted ≡ false)
    × (s.is_direct ≡ true)
    × (s.waiting_for_idr ≡ false)
    × (((s.current_frame ≡ none) × (k ≡ 0))
        ⊎ ((f : FrameAssembly) × (s.current_frame ≡ some f)
            × (f.frame_number ≡ index)
            × (f.is_idr ≡ false)
            × (map (λ p. p.payload) f.packets ≡ replicate k (in_buffer n))))

pub map-snoc :
    (ps : List RtpPacket) (p : RtpPacket) (k n : ℕ)
    → map (λ p. p.payload) ps ≡ replicate k (in_buffer n)
    → p.payload ≡ in_buffer n
    → map (λ p. p.payload) (ps ++ p ∷ []) ≡ replicate (suc k) (in_buffer n)
map-snoc [] p zero n h e = ground arith
map-snoc [] p (suc k) n h e = ground arith
map-snoc (q ∷ ps) p zero n h e = ground arith
map-snoc (q ∷ ps) p (suc k) n h e = ground (arith, map-snoc ps p k n (ground arith) e)

pub frame_held :
    (s : Stream) (index n k : ℕ)
    → IsHolding s index n k
    → (f : FrameAssembly) × (frame_for s index false ≡ (s, f))
      × (f.frame_number ≡ index)
      × (f.is_idr ≡ false)
      × (map (λ p. p.payload) f.packets ≡ replicate k (in_buffer n))
unfolding IsHolding frame_for
frame_held s index n k (a, b, c, inl (e, z)) =
    (new_frame index false, ground arith, refl, refl, ground arith)
frame_held s index n k (a, b, c, inr (f, e, i, t, m)) = (f, ground arith, i, t, m)

-- A packet that holds its number, of the frame and no key frame, joins what the stream holds.
pub process_part :
    (s : Stream) (p : RtpPacket) (f : FrameAssembly) (n index : ℕ)
    → s.waiting_for_idr ≡ false
    → frame_for s index false ≡ (s, f)
    → 4 ≤ n
    → p.payload ≡ in_buffer n
    → p.packet_type / 128 % 2 ≡ 0
    → le32_at (contents s.buffer p.payload) 0 ≡ index
    → process_packet s p ≡ (
        if is_end_of_frame p
        then record (submit_frame s (add_packet f p)) { current_frame = none }
        else record s { current_frame = some (add_packet f p) })
unfolding process_packet
process_part s p f n index w held low e idr at = ground arith
