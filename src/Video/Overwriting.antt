-- ===== src/Video/Overwriting.antt =====
-- What the decoder gets of a frame of several packets that are not encrypted.
use moonparty.Base.{
  ℕ, zero, suc, ◌+◌, ◌/◌, ◌%◌, ◌==◌, ◌≤◌, ◌≡◌, refl, ap, ◌∙◌, sym, Bool, true, false, none, some,
  List, [], ◌∷◌, ◌++◌, map, arith, length, get_or, drop, replicate, length-append, if◌then◌else◌,
  inl, inr,
}
use moonparty.Base.Bytes.{le32_at}
use moonparty.Crypto.Ciphers.{Aes}
use moonparty.Video.{
  Stream, RtpPacket, in_buffer, FrameAssembly, Submission, goes_on, receive, submit_frame,
  frame_for, contents, header_of, add_packet,
}
use moonparty.Video.Assembly.{
  receive_all, IsPart, read_into, counted, receive_plain, contents_read, IsHolding, map-snoc,
  frame_held, process_part,
}

map-contents-replicate :
    (buffer : List ℕ) (n k : ℕ) (bytes : List ℕ)
    → contents buffer (in_buffer n) ≡ bytes
    → map (contents buffer) (replicate k (in_buffer n)) ≡ replicate k bytes
map-contents-replicate buffer n zero bytes h = refl
map-contents-replicate buffer n (suc k) bytes h =
    ap (λ (x : List ℕ). x ∷ map (contents buffer) (replicate k (in_buffer n))) h
    ∙ ap (◌∷◌ bytes) (map-contents-replicate buffer n k bytes h)

-- What the decoder is given of a frame that is no key frame.
abbrev pub seen : ℕ → List (List ℕ) → Submission
seen index buffers = record { frame_number = index; is_idr = false; buffers = buffers }

submit_direct :
    (s : Stream) (f : FrameAssembly) (p : RtpPacket)
    → s.is_direct ≡ true
    → (submit_frame s (add_packet f p)).submitted
      ≡ s.submitted
        ++ (record {
          frame_number = f.frame_number;
          is_idr = f.is_idr;
          buffers = map (contents s.buffer) (map (λ p. p.payload) (f.packets ++ p ∷ []));
        })
          ∷ []
unfolding submit_frame
submit_direct s f p h = ground (arith, length-append f.packets (p ∷ []))

module _ (aes : Aes) (s : Stream) (index n k : ℕ) (d : List ℕ) (held : IsHolding s index n k)
    (low : 4 ≤ n) where
  abbrev now : Stream
  now = counted (read_into s d)

  held_now : IsHolding now index n k
  unfolding IsHolding
  held_now = held

  round_part :
      (is_last : Bool) (f : FrameAssembly)
      → frame_for now index false ≡ (now, f)
      → IsPart n index is_last d
      → receive aes s false d
        ≡ goes_on (
            if is_last
            then record (submit_frame now (add_packet f (header_of d (in_buffer n)))) {
              current_frame = none;
            }
            else record now { current_frame = some (add_packet f (header_of d (in_buffer n))) })
  unfolding IsHolding
  round_part is_last f e (size, at, idr, mark) =
      receive_plain aes s n d held.0 size
      ∙ ap goes_on (
          process_part now (header_of d (in_buffer n)) f n index held.2 e low refl idr (
            ap (λ (x : List ℕ). le32_at x 0) (contents_read n d (drop (length d) s.buffer) size)
            ∙ at)
          ∙ ap
              (λ (b : Bool).
                if b
                then record (submit_frame now (add_packet f (header_of d (in_buffer n)))) {
                  current_frame = none;
                }
                else record now { current_frame = some (add_packet f (header_of d (in_buffer n))) })
              (marked is_last (get_or d 1 0) mark))
    where
      marked : (b : Bool) (m : ℕ) → m / 64 % 2 ≡ (if b then 1 else 0) → (m / 64 % 2 == 1) ≡ b
      marked b m h = ground arith

  receive_part :
      IsPart n index false d
      → (t : Stream) × (receive aes s false d ≡ goes_on t)
        × IsHolding t index n (suc k)
        × (t.submitted ≡ s.submitted)
  unfolding IsHolding
  receive_part part =
      let (f, e, number, idr, payloads) = frame_held now index n k held_now in
      let p = header_of d (in_buffer n) in
      (
        record now { current_frame = some (add_packet f p) },
        round_part false f e part,
        (
          held.0,
          held.1,
          held.2,
          inr (add_packet f p, refl, number, idr, map-snoc f.packets p k n payloads refl),
        ),
        refl,
      )

  receive_last :
      IsPart n index true d
      → (t : Stream) × (receive aes s false d ≡ goes_on t)
        × (t.submitted ≡ s.submitted ++ seen index (replicate (suc k) (drop 12 d)) ∷ [])
  unfolding IsHolding
  receive_last part =
      let (f, e, number, idr, payloads) = frame_held now index n k held_now in
      let p = header_of d (in_buffer n) in
      let bytes =
        ap (map (contents now.buffer)) (map-snoc f.packets p k n payloads refl)
        ∙ map-contents-replicate now.buffer n (suc k) (drop 12 d)
            (contents_read n d (drop (length d) s.buffer) part.0) in
      (
        record (submit_frame now (add_packet f p)) { current_frame = none },
        round_part true f e part,
        submit_direct now f p held.1 ∙ rw (number, idr, bytes) refl,
      )

-- Datagrams of one frame, of which the last is marked.
abbrev pub AllParts : ℕ → ℕ → List (List ℕ) → Type 0
AllParts n index [] = 0 ≤ 0
AllParts n index (d ∷ ds) = IsPart n index false d × AllParts n index ds

frame_from :
    (aes : Aes) (s : Stream) (index n k : ℕ) (ds : List (List ℕ)) (d : List ℕ)
    → IsHolding s index n k
    → 4 ≤ n
    → AllParts n index ds
    → IsPart n index true d
    → (t : Stream) × (receive_all aes s (ds ++ d ∷ []) ≡ goes_on t)
      × (t.submitted ≡ s.submitted ++ seen index (replicate (suc (k + length ds)) (drop 12 d)) ∷ [])
unfolding receive_all
frame_from aes s index n k [] d held low parts last =
    let (t, e, out) = receive_last aes s index n k d held low last in
    (t, rw (e, receive_all) refl, rw (add_zero k) out)
  where
    add_zero : (k : ℕ) → k + 0 ≡ k
    add_zero k = omega arith
frame_from aes s index n k (c ∷ ds) d held low (part, parts) last =
    let (t, e, held', same) = receive_part aes s index n k c held low part in
    let (u, e', out) = frame_from aes t index n (suc k) ds d held' low parts last in
    (u, rw (e, receive_all) e', rw (add_suc k (length ds), sym same) out)
  where
    add_suc : (k m : ℕ) → k + suc m ≡ suc k + m
    add_suc k m = omega arith

IsHolding-none :
    (s : Stream) (index n : ℕ)
    → s.encrypted ≡ false
    → s.is_direct ≡ true
    → s.waiting_for_idr ≡ false
    → s.current_frame ≡ none
    → IsHolding s index n 0
unfolding IsHolding
IsHolding-none s index n a b c e = (a, b, c, inl (e, refl))

-- On a stream that is not encrypted, submits directly, holds no frame and waits for no key frame, a
-- frame of datagrams of one length that is no key frame, where the first frame is not late, reaches
-- the decoder as that number of copies of the last datagram: the packets refer to the one buffer of
-- the receive loop, which every read overwrites.
pub receive_all_overwritten :
    (aes : Aes) (s : Stream) (index n : ℕ) (ds : List (List ℕ)) (d : List ℕ)
    → s.encrypted ≡ false
    → s.is_direct ≡ true
    → s.waiting_for_idr ≡ false
    → s.current_frame ≡ none
    → 4 ≤ n
    → AllParts n index ds
    → IsPart n index true d
    → (t : Stream) × (receive_all aes s (ds ++ d ∷ []) ≡ goes_on t)
      × (t.submitted ≡ s.submitted ++ seen index (replicate (suc (length ds)) (drop 12 d)) ∷ [])
receive_all_overwritten aes s index n ds d plain direct ready idle low parts last =
    let (t, e, out) =
      frame_from aes s index n 0 ds d (IsHolding-none s index n plain direct ready idle) low parts
        last in
    (t, e, rw (sym (zero_add (length ds))) out)
  where
    zero_add : (m : ℕ) → 0 + m ≡ m
    zero_add m = omega arith
