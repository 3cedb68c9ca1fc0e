-- ===== src/Limelight/Outcomes.antt =====
-- `Start` with a server that answers: it connects, or panics where the server names the duration 0.
use mathlib.Core.Bool.{true≢false}
use moonparty.Base.Result.{ok, err, Ends, Never, and_then-Never}
use moonparty.Base.{true, false, ℤ, pos, ◌≡◌, refl, ap}
use moonparty.Limelight.Connecting.{IsUp, Built, finish_stage-Never, start-up}
use moonparty.Limelight.Machine.{stop_idle}
use moonparty.Limelight.Phases.{Running}
use moonparty.Limelight.Serving.{Serves}
use moonparty.Limelight.Shape.{Shape}
use moonparty.Limelight.Start.{
  notify_stage_starting, is_zero, finish_stage, run_stage, init_audio_stream, init_input_stream,
  complete_start, start_input, start_audio, start, stop,
}
use moonparty.Limelight.{Client, System, Failure, panics, Try, audio_stream_init}

start_input-up :
    (sys : System) (d : ℤ) (c : Client)
    → Built d true true true c
    → Ends Never (λ s u. Running s) (start_input sys c)
unfolding start_input run_stage finish_stage init_input_stream complete_start
start_input-up sys d c (l, ((k, (v, (a, (i, n)))), h)) = ((k, (v, (a, (refl, refl)))), h)

start_audio-up :
    (sys : System) (d : ℤ) (c : Client)
    → is_zero d ≡ false
    → IsUp sys
    → sys.inits_audio ≡ true
    → Built d true true false c
    → Ends Never (λ s u. Running s) (start_audio sys c)
unfolding start_audio run_stage init_audio_stream
start_audio-up sys d c z up w (l, ((k, (v, (a, (i, n)))), h)) =
    let told : Client = notify_stage_starting audio_stream_init c in
    and_then-Never (λ s u. Built d true true true s) Never (λ s u. Running s) _ _
      (finish_stage-Never sys.net audio_stream_init true (Built d true true true)
        (init_audio_stream sys told)
        (rw (up.listens_audio, l, z, w) (refl, ((k, (v, (refl, (i, n)))), h))) (λ s p. p))
      (λ s u p. start_input-up sys d s p)

-- With a server that takes every connection and answers 200 to every request, on a system where the
-- name resolves, the sockets open, the messages are written and the decoders are set up, `Start` of
-- a client that is not connected and holds no stream returns no error and leaves the client
-- connected with its RTSP client and all four streams, unless the answer to DESCRIBE names 0 as the
-- duration of an audio packet.
pub start-connects :
    (sys : System) (d : ℤ) (c : Client)
    → Shape false false false false false c
    → Serves d sys.net
    → is_zero d ≡ false
    → IsUp sys
    → sys.inits_audio ≡ true
    → ((start sys c).1 ≡ ok tt) × Running (start sys c).0
start-connects sys d c h srv z up w =
    connected (start sys c)
      (start-up sys d srv up Never (λ s u. Running s) (λ s b. start_audio-up sys d s z up w b) c h)
  where
    connected :
        (m : Client × Try Unit) → Ends Never (λ s u. Running s) m → (m.1 ≡ ok tt) × Running m.0
    connected (s, ok u) h = (refl, h)
    connected (s, err e) h = absurd (true≢false h)

-- How a `Start` ends that panics with three of the streams up.
abbrev Panicked : Client → Failure → Type 0
Panicked s e = (e ≡ panics) × Shape true true true false false s

start_audio-panics :
    (sys : System) (c : Client)
    → IsUp sys
    → Built (pos 0) true true false c
    → Ends Panicked (λ s (u : Unit {0}). true ≡ false) (start_audio sys c)
unfolding start_audio run_stage finish_stage init_audio_stream
start_audio-panics sys c up (l, ((k, (v, (a, (i, n)))), h)) =
    rw (up.listens_audio, l) (refl, (k, (v, (refl, (i, n)))))

-- With a server that takes every connection, answers 200 to every request and names 0 as the
-- duration of an audio packet in its answer to DESCRIBE, on a system where the name resolves, the
-- sockets open, the messages are written and the video decoder is set up, `Start` of a client that
-- is not connected and holds no stream panics. It leaves the control, video and audio streams in
-- place, and a later `Stop` does nothing about them.
pub start-panics :
    (sys sys' : System) (c : Client)
    → Shape false false false false false c
    → Serves (pos 0) sys.net
    → IsUp sys
    → ((start sys c).1 ≡ err panics)
      × (Shape true true true false false (start sys c).0
          × (stop sys' (start sys c).0 ≡ (start sys c).0))
start-panics sys sys' c h srv up = left (start sys c) (
    start-up sys (pos 0) srv up Panicked (λ s u. true ≡ false)
      (λ s b. start_audio-panics sys s up b) c h)
  where
    left :
        (m : Client × Try Unit)
        → Ends Panicked (λ s (u : Unit {0}). true ≡ false) m
        → (m.1 ≡ err panics) × (Shape true true true false false m.0 × (stop sys' m.0 ≡ m.0))
    left (s, ok u) h = absurd (true≢false h)
    left (s, err e) (p, q) = (ap err p, (q, stop_idle sys' s q.1.1.1.1))
