-- ===== src/Limelight/Order.antt =====
-- Every `Start` tells of its stages in their order.
use mathlib.Core.List.{append-nil, append_assoc}
use mathlib.Core.Path.{subst}
use moonparty.Base.Result.{ok, err, and_then}
use moonparty.Base.Text.{Bytes, atoi}
use moonparty.Limelight.Address.{parse_app_version}
use moonparty.Base.{
  Bool, true, false, inl, inr, List, [], ◌∷◌, ◌++◌, ◌≡◌, refl, ap, sym, ◌∙◌, ℤ, ◌⊎◌,
}
use moonparty.Limelight.Start.{
  notify_stage_starting, notify_stage_complete, notify_stage_failed, finish_stage, run_stage,
  init_control_stream, init_video_stream, init_audio_stream, init_input_stream, complete_start,
  start_input, start_audio, start_video, start_control, start_rtsp, read_server, start_at,
  start_among, start_host, start,
}
use moonparty.Limelight.{
  Client, System, Notice, starting, complete, failed, Failure, panics, unresolved, Try, Stage,
  platform_init, rtsp_handshake, control_stream_init, video_stream_init, audio_stream_init,
  input_stream_init, control_stream_start, video_stream_start, audio_stream_start,
  input_stream_start,
}
use moonparty.Rtsp.{Network}
use moonparty.Limelight.Shape.{start_idle}
use moonparty.Limelight.Stages.{
  IsStaged, Ending, succeeding, failing, panicking, reached, passed, halted, left, Quietly,
  cleanup-Quietly,
}
use moonparty.Limelight.Telling.{handshake_tells_nothing}

-- A panic is no error that is returned.
abbrev pub ending : Try Unit → Ending
ending (ok u) = succeeding
ending (err panics) = panicking
ending (err _) = failing

-- The run over the stages that are left, as the client tells it from `c` on.
abbrev pub Told : List Stage → Client → Client × Try Unit → Type 0
Told ss c m = (ns : List Notice) × ((m.0.notices ≡ c.notices ++ ns) × IsStaged ss ns (ending m.1))

-- A shutdown behind a failed stage.
Told-failed :
    (stage : Stage) (ss : List Stage) (c s s' : Client) (e : Failure)
    → s.notices ≡ c.notices ++ starting stage ∷ []
    → Quietly (notify_stage_failed stage s) s'
    → ending (err e) ≡ failing
    → Told (stage ∷ ss) c (s', err e)
unfolding Quietly
Told-failed stage ss c s s' e t (ns, (q, quiet)) fails = (
  starting stage ∷ failed stage ∷ ns,
  (
    q ∙ ap (λ (x : List Notice). x ++ failed stage ∷ [] ++ ns) t ∙ simp append_assoc,
    rw fails (halted quiet),
  ),
)

-- A stage that completes, and the stages behind it.
Told-passed :
    (stage : Stage) (ss : List Stage) (c s : Client) (m : Client × Try Unit)
    → s.notices ≡ c.notices ++ starting stage ∷ []
    → Told ss (notify_stage_complete stage s) m
    → Told (stage ∷ ss) c m
Told-passed stage ss c s m t (ns, (q, staged)) = (
  starting stage ∷ complete stage ∷ ns,
  (
    q ∙ ap (λ (x : List Notice). x ++ complete stage ∷ [] ++ ns) t ∙ simp append_assoc,
    passed staged,
  ),
)

-- One stage, by how its body ends, and what follows it.
Told-stage :
    (net : Network) (stage : Stage) (cleans : Bool) (ss : List Stage) (c : Client)
    (m : Client × Try Unit) (f : Client → Client × Try Unit)
    → m.0.notices ≡ c.notices ++ starting stage ∷ []
    → ((s : Client) → Told ss s (f s))
    → Told (stage ∷ ss) c (and_then (finish_stage net stage cleans m) (λ s u. f s))
unfolding finish_stage
Told-stage net stage cleans ss c (s, ok u) f t k =
    Told-passed stage ss c s (f (notify_stage_complete stage s)) t
      (k (notify_stage_complete stage s))
Told-stage net stage cleans ss c (s, err panics) f t k = (starting stage ∷ [], (t, left))
Told-stage net stage true ss c (s, err e) f t k =
    Told-failed stage ss c s _ e t (cleanup-Quietly net (notify_stage_failed stage s)) refl
Told-stage net stage false ss c (s, err e) f t k =
    Told-failed stage ss c s (notify_stage_failed stage s) e t
      (unfold Quietly in ([], (sym (append-nil _), tt))) refl

-- The stages of the streams that are already started.
abbrev last_stages : List Stage
last_stages =
    control_stream_start ∷ video_stream_start ∷ audio_stream_start ∷ input_stream_start ∷ []

complete_start-Told : (c : Client) → Told last_stages c (complete_start c)
unfolding complete_start
complete_start-Told c = (_, (simp append_assoc, passed (passed (passed (passed reached)))))

start_input-Told :
    (sys : System) (c : Client) → Told (input_stream_init ∷ last_stages) c (start_input sys c)
unfolding start_input run_stage init_input_stream
start_input-Told sys c =
    Told-stage sys.net input_stream_init true last_stages c _ complete_start refl
      complete_start-Told

start_audio-Told :
    (sys : System) (c : Client)
    → Told (audio_stream_init ∷ input_stream_init ∷ last_stages) c (start_audio sys c)
unfolding start_audio run_stage init_audio_stream
start_audio-Told sys c =
    Told-stage sys.net audio_stream_init true _ c _ (start_input sys) refl (start_input-Told sys)

abbrev stream_stages : List Stage
stream_stages = video_stream_init ∷ audio_stream_init ∷ input_stream_init ∷ last_stages

start_video-Told : (sys : System) (c : Client) → Told stream_stages c (start_video sys c)
unfolding start_video run_stage init_video_stream
start_video-Told sys c =
    Told-stage sys.net video_stream_init true _ c _ (start_audio sys) refl (start_audio-Told sys)

start_control-Told :
    (sys : System) (c : Client) → Told (control_stream_init ∷ stream_stages) c (start_control sys c)
unfolding start_control run_stage init_control_stream
start_control-Told sys c =
    Told-stage sys.net control_stream_init true _ c _ (start_video sys) refl (start_video-Told sys)

start_rtsp-Told :
    (sys : System) (c : Client)
    → Told (rtsp_handshake ∷ control_stream_init ∷ stream_stages) c (start_rtsp sys c)
unfolding start_rtsp run_stage
start_rtsp-Told sys c =
    Told-stage sys.net rtsp_handshake false _ c _ (start_control sys)
      (handshake_tells_nothing sys.net (notify_stage_starting rtsp_handshake c))
      (start_control-Told sys)

-- In the order of `Start`.
abbrev pub all_stages : List Stage
all_stages = platform_init ∷ rtsp_handshake ∷ control_stream_init ∷ stream_stages

start_at-Told :
    (sys : System) (ip : Bytes) (port : ℤ) (c : Client) → Told all_stages c (start_at sys ip port c)
unfolding start_at parse_app_version
start_at-Told sys ip port c =
    let told : Client = notify_stage_starting platform_init (read_server ip port c) in
    Told-passed platform_init (rtsp_handshake ∷ control_stream_init ∷ stream_stages) c told
      (start_at sys ip port c) refl (start_rtsp-Told sys (notify_stage_complete platform_init told))

-- No address: nothing is told.
abbrev pub Unheard : Client → Client × Try Unit → Type 0
Unheard c m = (m.1 ≡ err unresolved) × (m.0.notices ≡ c.notices)

start_among-Told :
    (sys : System) (ips : List Bytes) (port : Bytes) (c : Client)
    → Unheard c (start_among sys ips port c) ⊎ Told all_stages c (start_among sys ips port c)
unfolding start_among
start_among-Told sys [] port c = inl (refl, refl)
start_among-Told sys (ip ∷ ips) port c = inr (start_at-Told sys ip (atoi port).0 c)

start_host-Told :
    (sys : System) (host port : Bytes) (c : Client)
    → Unheard c (start_host sys host port c) ⊎ Told all_stages c (start_host sys host port c)
unfolding start_host
start_host-Told sys host port c = start_among-Told sys (sys.lookup_ip host) port c

-- A `Start` of a client that is not connected tells of its stages in their order: each starts and
-- completes before the next one starts. If it returns no error, that goes up to the last stage,
-- after which the connection has started; if it returns an error, up to a stage of which it is told
-- that it failed, after which there is only a shutdown; if it panics, up to a stage that has
-- started. Or it tells nothing, and the error is that the name of the server does not resolve.
pub start-IsStaged :
    (sys : System) (c : Client)
    → c.connected ≡ false
    → Unheard c (start sys c) ⊎ Told all_stages c (start sys c)
start-IsStaged sys c n =
    let (host, (port, e)) = start_idle sys c n in
    subst (λ (m : Client × Try Unit). Unheard c m ⊎ Told all_stages c m) (sym e)
      (start_host-Told sys host port (record c { has_context = true }))
