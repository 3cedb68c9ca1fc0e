-- ===== src/Moonlight/Frames.antt =====
-- internal/moonlight/stream.go: the channels of frames and samples, which the callbacks of
-- internal/moonlight/limelight/limelight.go fill.
use moonparty.Base.{
  ℕ, zero, suc, ◌≤◌, Bool, true, false, Option, none, some, List, [], ◌∷◌, ◌++◌, map, length,
  length-append, take, take-append_self, ltb, if◌then◌else◌, ◌≡◌, refl, sym, ap, ◌∙◌, arith,
  Bool-cases, inl, inr,
}
use mathlib.Core.List.{append_assoc}
use moonparty.Video.{Submission}

-- The buffers of a decode unit, one after the other: each holds its whole content.
unfoldable pub collect : List (List ℕ) → List ℕ
collect [] = []
collect (buffer ∷ buffers) = buffer ++ collect buffers

-- `closed` is whether the two channels have been closed.
pub record LimelightStream : Type 0 where
  pub video_frames : List (List ℕ)
  pub audio_frames : List (List ℕ)
  pub closed : Bool

abbrev pub video_capacity : ℕ
video_capacity = 60

abbrev pub audio_capacity : ℕ
audio_capacity = 120

-- A send that does not wait: a full channel drops what is sent.
unfoldable pub offer : ℕ → List ℕ → List (List ℕ) → List (List ℕ)
offer capacity frame waiting =
    if ltb (length waiting) capacity then waiting ++ frame ∷ [] else waiting

-- `decoderAdapter.SubmitDecodeUnit` with the callback of the stream; `none` is the panic of a send on
-- a closed channel.
unfoldable pub on_decode_unit : LimelightStream → Submission → Option LimelightStream
unfolding collect offer
on_decode_unit s unit =
    if s.closed
    then none
    else some
        (record s { video_frames = offer video_capacity (collect unit.buffers) s.video_frames })

unfoldable pub on_audio_sample : LimelightStream → List ℕ → Option LimelightStream
unfolding offer
on_audio_sample s sample =
    if s.closed
    then none
    else some (record s { audio_frames = offer audio_capacity sample s.audio_frames })

-- The closing of the two channels, which ends `Close`; a second one panics.
unfoldable pub close_channels : LimelightStream → Option LimelightStream
close_channels s = if s.closed then none else some (record s { closed = true })

-- The units of a stretch in which nobody reads.
pub submit_all : LimelightStream → List Submission → Option LimelightStream
submit_all s [] = some s
submit_all s (unit ∷ units) = elim (on_decode_unit s unit) [
  | none ↦ none
  | some t ↦ submit_all t units
]

abbrev pub frame_of : Submission → List ℕ
frame_of unit = collect unit.buffers

-- What is offered is dropped by the limit, or stands where it would.
take-offer :
    (n : ℕ) (frame : List ℕ) (waiting rest : List (List ℕ))
    → length waiting ≤ n
    → take n (offer n frame waiting ++ rest) ≡ take n (waiting ++ frame ∷ rest)
unfolding offer
take-offer n frame waiting rest h = elim (Bool-cases (ltb (length waiting) n)) [
  | inl room ↦ rw (room, append_assoc waiting (frame ∷ []) rest) refl
  | inr full ↦
      let e : n ≡ length waiting = ground arith in
      rw (full, e, take-append_self waiting rest, take-append_self waiting (frame ∷ rest)) refl
]

length-offer :
    (n : ℕ) (frame : List ℕ) (waiting : List (List ℕ))
    → length waiting ≤ n
    → length (offer n frame waiting) ≤ n
unfolding offer
length-offer n frame waiting h = ground (arith, length-append waiting (frame ∷ []))

take_whole : (n : ℕ) (xs : List (List ℕ)) → length xs ≤ n → take n (xs ++ []) ≡ xs
take_whole zero [] h = refl
take_whole (suc n) [] h = refl
take_whole zero (x ∷ xs) h = absurd (omega arith)
take_whole (suc n) (x ∷ xs) h = ap (◌∷◌ x) (take_whole n xs (omega arith))

on_decode_unit_open :
    (s : LimelightStream) (unit : Submission)
    → s.closed ≡ false
    → on_decode_unit s unit
      ≡ some (record s { video_frames = offer video_capacity (frame_of unit) s.video_frames })
unfolding on_decode_unit
on_decode_unit_open s unit c = rw c refl

-- Whatever units arrive while nobody reads, on a stream that is not closed, none makes the callback wait or
-- panic, and the channel then holds the first 60 of what waited before and of the frames that came,
-- in their order; nothing else of the stream changes.
pub submit_all_lem :
    (s : LimelightStream) (units : List Submission)
    → s.closed ≡ false
    → length s.video_frames ≤ video_capacity
    → submit_all s units
      ≡ some
          (record s { video_frames = take video_capacity (s.video_frames ++ map frame_of units) })
unfolding submit_all
submit_all_lem s [] c h =
    ap (λ (q : List (List ℕ)). some (record s { video_frames = q }))
      (sym (take_whole 60 s.video_frames h))
submit_all_lem s (unit ∷ units) c h =
    let frame = frame_of unit in
    let rest = map frame_of units in
    let t : LimelightStream = record s {
      video_frames = offer video_capacity frame s.video_frames;
    } in
    rw (on_decode_unit_open s unit c, submit_all)
      (submit_all_lem t units c (length-offer video_capacity frame s.video_frames h)
        ∙ ap (λ (q : List (List ℕ)). some (record s { video_frames = q }))
            (take-offer video_capacity frame s.video_frames rest h))
