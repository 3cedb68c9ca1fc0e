-- ===== src/Limelight/Connecting.antt =====
-- What `Start` comes to with a server that answers, on a system where every socket opens.
use mathlib.Core.Path.{subst}
use mathlib.Core.Bool.{true≢false}
use moonparty.Base.Result.{ok, err, Ends, Never, and_then-Never, Ends-both}
use moonparty.Base.Text.{Bytes}
use moonparty.Base.{Bool, true, false, none, List, ◌∷◌, ℤ, ◌≡◌, refl, sym, arith}
use moonparty.Control
use moonparty.Control.Message.{send_start_a, send_start_b, send_message}
use moonparty.Control.{AppVersion, app_version_at_least, new_stream}
use moonparty.Limelight.Address.{parse_app_version}
use moonparty.Limelight.Handshake.{do_rtsp_handshake}
use moonparty.Limelight.Serving.{Serves, Lasts, do_rtsp_handshake-Serves}
use moonparty.Limelight.Shaking.{Held, do_rtsp_handshake-Held}
use moonparty.Limelight.Shape.{Shape, start_idle}
use moonparty.Limelight.Start.{
  notify_stage_starting, notify_stage_complete, sends_startup, starts_control, finish_stage,
  run_stage, init_control_stream, init_video_stream, start_audio, start_video, start_control,
  start_rtsp, start_at, start_among, start_host, start,
}
use moonparty.Limelight.{
  Client, System, Failure, Try, Stage, control_stream_init, video_stream_init, rtsp_handshake,
}
use moonparty.Rtsp.{Network}

-- Names resolve, sockets open, messages are written, and the video decoder is set up.
pub record IsUp (sys : System) : Type 0 where
  pub resolves :
      (host : Bytes) → (ip : Bytes) × ((ips : List Bytes) × (sys.lookup_ip host ≡ ip ∷ ips))
  pub dials_control : sys.dials_control ≡ true
  pub writes_start_a : sys.writes_start_a ≡ true
  pub writes_start_b : sys.writes_start_b ≡ true
  pub listens_video : sys.listens_video ≡ true
  pub sets_up_video : sys.sets_up_video ≡ true
  pub listens_audio : sys.listens_audio ≡ true

start_a_written :
    (s : moonparty.Control.Stream)
    → s.has_conn ≡ true
    → ((send_start_a s true).2 ≡ none) × ((send_start_a s true).0.has_conn ≡ true)
unfolding send_start_a send_message
start_a_written s h = (ground arith, ground arith)

start_b_written :
    (s : moonparty.Control.Stream) → s.has_conn ≡ true → (send_start_b s true).2 ≡ none
unfolding send_start_b send_message
start_b_written s h = ground arith

sends_startup_up :
    (s : moonparty.Control.Stream) → s.has_conn ≡ true → sends_startup s true true ≡ true
unfolding sends_startup
sends_startup_up s h =
    let (e, h') = start_a_written s h in
    rw (e, sends_startup, start_b_written (send_start_a s true).0 h') refl

starts_control_up : (sys : System) (c : Client) → IsUp sys → starts_control sys c ≡ true
starts_control_up sys c up =
    rw (up.dials_control, up.writes_start_a, up.writes_start_b) (sends_startup_up _ refl)

-- A stage whose body succeeds.
pub finish_stage-Never :
    (net : Network) (stage : Stage) (cleans : Bool) (P : Client → Type 0) (m : Client × Try Unit)
    → Ends Never (λ s u. P s) m
    → ((s : Client) → P s → P (notify_stage_complete stage s))
    → Ends Never (λ s u. P s) (finish_stage net stage cleans m)
unfolding finish_stage
finish_stage-Never net stage cleans P (c, ok u) h k = k c h
finish_stage-Never net stage cleans P (c, err e) h k = absurd (true≢false h)

-- What the stages up to some point have made of the client.
abbrev pub Built : ℤ → Bool → Bool → Bool → Client → Type 0
Built d control video audio s =
    (s.audio_packet_duration ≡ d) × Held control video audio false false s

module _ (sys : System) (d : ℤ) (srv : Serves d sys.net) (up : IsUp sys)
    (R : Client → Failure → Type 0) (Q : Client → Unit {0} → Type 0)
    (audio : (s : Client) → Built d true true false s → Ends R Q (start_audio sys s)) where
  start_video-up : (c : Client) → Built d true false false c → Ends R Q (start_video sys c)
  unfolding start_video run_stage init_video_stream
  start_video-up c (l, ((k, (v, (a, (i, n)))), h)) =
      and_then-Never (λ s u. Built d true true false s) R Q _ _
        (finish_stage-Never sys.net video_stream_init true (Built d true true false)
          (init_video_stream sys (notify_stage_starting video_stream_init c))
          (rw (up.listens_video, up.sets_up_video) (l, ((k, (refl, (a, (i, n)))), h))) (λ s p. p))
        (λ s u p. audio s p)

  start_control-up : (c : Client) → Built d false false false c → Ends R Q (start_control sys c)
  unfolding start_control run_stage init_control_stream
  start_control-up c (l, ((k, (v, (a, (i, n)))), h)) =
      let told : Client = notify_stage_starting control_stream_init c in
      and_then-Never (λ s u. Built d true false false s) R Q _ _
        (finish_stage-Never sys.net control_stream_init true (Built d true false false)
          (init_control_stream sys told)
          (rw (starts_control_up sys told up) (l, ((refl, (v, (a, (i, n)))), h))) (λ s p. p))
        (λ s u p. start_video-up s p)

  start_rtsp-up : (c : Client) → Shape false false false false false c → Ends R Q (start_rtsp sys c)
  unfolding start_rtsp run_stage
  start_rtsp-up c h =
      let told : Client = notify_stage_starting rtsp_handshake c in
      and_then-Never (λ s u. Built d false false false s) R Q _ _
        (finish_stage-Never sys.net rtsp_handshake false (Built d false false false)
          (do_rtsp_handshake sys.net told)
          (Ends-both (Lasts d) (Held false false false false false) (do_rtsp_handshake sys.net told)
            (do_rtsp_handshake-Serves d sys.net srv told) (do_rtsp_handshake-Held sys.net told h))
          (λ s p. p))
        (λ s u p. start_control-up s p)

  start_host-up :
      (host port : Bytes) (c : Client)
      → Shape false false false false false c
      → Ends R Q (start_host sys host port c)
  unfolding start_host start_among start_at parse_app_version
  start_host-up host port c h = let (ip, (ips, e)) = up.resolves host in rw e (start_rtsp-up _ h)

  pub start-up : (c : Client) → Shape false false false false false c → Ends R Q (start sys c)
  start-up c h =
      let (host, (port, e)) = start_idle sys c h.1.1.1.1 in
      subst (λ (m : Client × Try Unit). Ends R Q m) (sym e)
        (start_host-up host port (record c { has_context = true }) h)
