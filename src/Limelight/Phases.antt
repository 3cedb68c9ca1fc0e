-- ===== src/Limelight/Phases.antt =====
-- How `Start` may end, by what the client then holds.
use mathlib.Core.Path.{subst}
use moonparty.Base.Result.{ok, err, Ends, and_then-Ends}
use moonparty.Base.Text.{Bytes, atoi}
use moonparty.Base.{Bool, true, false, ◌⊎◌, inl, inr, List, [], ◌∷◌, ℤ, ◌≡◌, refl, sym}
use moonparty.Limelight.Address.{parse_app_version}
use moonparty.Limelight.Handshake.{do_rtsp_handshake}
use moonparty.Limelight.Shaking.{Held, do_rtsp_handshake-Held}
use moonparty.Limelight.Shape.{Shape, cleanup-Shape, IsHungUp, cleanup-IsHungUp, start_idle}
use moonparty.Limelight.Start.{
  notify_stage_starting, notify_stage_failed, cleanup, finish_stage, run_stage, init_control_stream,
  init_video_stream, init_audio_stream, init_input_stream, complete_start, start_input, start_audio,
  start_video, start_control, start_rtsp, start_at, start_among, start_host, start,
}
use moonparty.Limelight.{
  Client, System, Failure, already_connected, panics, Try, Stage, control_stream_init,
  video_stream_init, audio_stream_init, input_stream_init, rtsp_handshake,
}
use moonparty.Limelight.Telling.{handshake_stage}
use moonparty.Rtsp.{Network}

-- How the stages behind the handshake may end that do not succeed.
abbrev Undone : Client → Failure → Type 0
Undone c e = (e ≡ panics) ⊎ (Shape false false false false false c × IsHungUp c)

module _ {a b d e : Bool} where
  failed-Undone :
      (net : Network) (stage : Stage) (c : Client)
      → Held a b d e false c
      → Shape false false false false false (cleanup net (notify_stage_failed stage c))
        × IsHungUp (cleanup net (notify_stage_failed stage c))
  failed-Undone net stage c (s, (h, t)) =
      let told : Client = notify_stage_failed stage c in
      (cleanup-Shape net told s, cleanup-IsHungUp net told h t)

  finish_stage-Ends :
      (net : Network) (stage : Stage) (m : Client × Try Unit)
      → Held a b d e false m.0
      → Ends Undone (λ s u. Held a b d e false s) (finish_stage net stage true m)
  unfolding finish_stage
  finish_stage-Ends net stage (c, ok u) h = h
  finish_stage-Ends net stage (c, err panics) h = inl refl
  finish_stage-Ends net stage (c, err _) h = inr (failed-Undone net stage c h)

-- A client that holds nothing: no stream, no RTSP client, and none of the connections still open that
-- its last RTSP client opened.
abbrev pub Idle : Client → Type 0
Idle c = Shape false false false false false c × IsHungUp c

-- A client whose handshake has failed: it is still in that stage, and has no stream, but the RTSP
-- client, which no cleanup has closed.
abbrev pub Stranded : Client → Type 0
Stranded c = Held false false false false false c × (c.stage ≡ rtsp_handshake)

abbrev pub Off : Client → Type 0
Off c = Idle c ⊎ Stranded c

pub Off-Shape : (c : Client) → Off c → Shape false false false false false c
Off-Shape c (inl (s, h)) = s
Off-Shape c (inr ((s, h), e)) = s

abbrev pub Stays : Client → Failure → Type 0
Stays c e = (e ≡ panics) ⊎ Off c

-- The client is connected, and holds everything.
abbrev pub Running : Client → Type 0
Running c = Held true true true true true c

-- The same for the handshake, which does not clean up.
handshake-Ends :
    (net : Network) (m : Client × Try Unit)
    → Held false false false false false m.0
    → m.0.stage ≡ rtsp_handshake
    → Ends Stays
        (λ s u. Held false false false false false s)
        (finish_stage net rtsp_handshake false m)
unfolding finish_stage
handshake-Ends net (c, ok u) h e = h
handshake-Ends net (c, err panics) h e = inl refl
handshake-Ends net (c, err _) h e = inr (inr (h, e))

weaken :
    (m : Client × Try Unit)
    → Ends Undone (λ s (u : Unit {0}). Running s) m
    → Ends Stays (λ s (u : Unit {0}). Running s) m
weaken (c, ok u) h = h
weaken (c, err e) (inl p) = inl p
weaken (c, err e) (inr h) = inr (inl h)

-- The streams come up one after the other.
start_input-Ends :
    (sys : System) (c : Client)
    → Held true true true false false c
    → Ends Undone (λ s (u : Unit {0}). Running s) (start_input sys c)
unfolding start_input run_stage init_input_stream complete_start
start_input-Ends sys c ((k, (v, (a, (i, n)))), h) =
    and_then-Ends Undone (λ s (u : Unit {0}). Held true true true true false s)
      (λ s (u : Unit {0}). Running s) _ _
      (finish_stage-Ends sys.net input_stream_init
        (init_input_stream (notify_stage_starting input_stream_init c))
        ((k, (v, (a, (refl, n)))), h))
      (λ s u ((k, (v, (a, (i, n)))), h). ((k, (v, (a, (i, refl)))), h))

start_audio-Ends :
    (sys : System) (c : Client)
    → Held true true false false false c
    → Ends Undone (λ s (u : Unit {0}). Running s) (start_audio sys c)
unfolding start_audio run_stage init_audio_stream
start_audio-Ends sys c ((k, (v, (a, (i, n)))), h) =
    and_then-Ends Undone (λ s (u : Unit {0}). Held true true true false false s)
      (λ s (u : Unit {0}). Running s) _ _
      (finish_stage-Ends sys.net audio_stream_init
        (init_audio_stream sys (notify_stage_starting audio_stream_init c))
        ((k, (v, (refl, (i, n)))), h))
      (λ s u p. start_input-Ends sys s p)

start_video-Ends :
    (sys : System) (c : Client)
    → Held true false false false false c
    → Ends Undone (λ s (u : Unit {0}). Running s) (start_video sys c)
unfolding start_video run_stage init_video_stream
start_video-Ends sys c ((k, (v, (a, (i, n)))), h) =
    and_then-Ends Undone (λ s (u : Unit {0}). Held true true false false false s)
      (λ s (u : Unit {0}). Running s) _ _
      (finish_stage-Ends sys.net video_stream_init
        (init_video_stream sys (notify_stage_starting video_stream_init c))
        ((k, (refl, (a, (i, n)))), h))
      (λ s u p. start_audio-Ends sys s p)

start_control-Ends :
    (sys : System) (c : Client)
    → Held false false false false false c
    → Ends Undone (λ s (u : Unit {0}). Running s) (start_control sys c)
unfolding start_control run_stage init_control_stream
start_control-Ends sys c ((k, (v, (a, (i, n)))), h) =
    and_then-Ends Undone (λ s (u : Unit {0}). Held true false false false false s)
      (λ s (u : Unit {0}). Running s) _ _
      (finish_stage-Ends sys.net control_stream_init
        (init_control_stream sys (notify_stage_starting control_stream_init c))
        ((refl, (v, (a, (i, n)))), h))
      (λ s u p. start_video-Ends sys s p)

-- A failure of the handshake leaves its RTSP client in place.
start_rtsp-Ends :
    (sys : System) (c : Client)
    → Shape false false false false false c
    → Ends Stays (λ s (u : Unit {0}). Running s) (start_rtsp sys c)
unfolding start_rtsp run_stage
start_rtsp-Ends sys c s =
    let shaken = do_rtsp_handshake-Held sys.net (notify_stage_starting rtsp_handshake c) s in
    and_then-Ends Stays (λ s (u : Unit {0}). Held false false false false false s)
      (λ s (u : Unit {0}). Running s) _ _
      (handshake-Ends sys.net (do_rtsp_handshake sys.net (notify_stage_starting rtsp_handshake c))
        shaken (handshake_stage sys.net (notify_stage_starting rtsp_handshake c)))
      (λ s u p. weaken (start_control sys s) (start_control-Ends sys s p))

start_at-Ends :
    (sys : System) (ip : Bytes) (port : ℤ) (c : Client)
    → Shape false false false false false c
    → Ends Stays (λ s (u : Unit {0}). Running s) (start_at sys ip port c)
unfolding start_at parse_app_version
start_at-Ends sys ip port c s = start_rtsp-Ends sys _ s

start_among-Ends :
    (sys : System) (ips : List Bytes) (port : Bytes) (c : Client)
    → Off c
    → Ends Stays (λ s (u : Unit {0}). Running s) (start_among sys ips port c)
unfolding start_among
start_among-Ends sys [] port c h = inr h
start_among-Ends sys (ip ∷ ips) port c h = start_at-Ends sys ip (atoi port).0 c (Off-Shape c h)

start_host-Ends :
    (sys : System) (host port : Bytes) (c : Client)
    → Off c
    → Ends Stays (λ s (u : Unit {0}). Running s) (start_host sys host port c)
unfolding start_host
start_host-Ends sys host port c h = start_among-Ends sys (sys.lookup_ip host) port c h

-- The context, which a start makes, is no part of what is held.
opened-Off : (c : Client) → Off c → Off (record c { has_context = true })
opened-Off c (inl (s, h)) =
    inl (s, record { no_rtsp = h.no_rtsp; all_closed = h.all_closed; tidy = h.tidy })
opened-Off c (inr h) = inr h

pub start-Ends :
    (sys : System) (c : Client) → Off c → Ends Stays (λ s (u : Unit {0}). Running s) (start sys c)
start-Ends sys c h =
    let (host, (port, e)) = start_idle sys c (Off-Shape c h).1.1.1.1 in
    subst (λ (m : Client × Try Unit). Ends Stays (λ s (u : Unit {0}). Running s) m) (sym e)
      (start_host-Ends sys host port (record c { has_context = true }) (opened-Off c h))

pub start_running :
    (sys : System) (c : Client) → c.connected ≡ true → start sys c ≡ (c, err already_connected)
unfolding start
start_running sys c h = rw h refl
