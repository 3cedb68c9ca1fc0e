-- ===== src/Limelight/Start.antt =====
-- moonlight-common-go/limelight/client.go: `Start`, `Stop` and `cleanup`.
use moonparty.Base.Result.{ok, err, and_then}
use moonparty.Base.Text.{Bytes, codes, atoi}
use moonparty.Base.{
  Bool, true, false, not, ◌&&◌, none, some, List, [], ◌∷◌, ℤ, pos, negsuc, ◌==◌, if◌then◌else◌,
}
use moonparty.Control.Message.{send_start_a, send_start_b}
use moonparty.Control.{Stream, new_stream}
use moonparty.Limelight.Address.{split_host_port, parse_app_version, names_sunshine}
use moonparty.Limelight.Handshake.{do_rtsp_handshake}
use moonparty.Limelight.{
  Client, System, starting, complete, failed, connection_started, cancelled, input_closed,
  audio_stopped, video_stopped, control_stopped, rtsp_closed, already_connected, unresolved, panics,
  stream_failed, Try, Stage, platform_init, rtsp_handshake, control_stream_init, video_stream_init,
  audio_stream_init, input_stream_init, control_stream_start, video_stream_start,
  audio_stream_start, input_stream_start, stage_complete, notify,
}
use moonparty.Rtsp.Requests.{do_teardown}
use moonparty.Rtsp.{Network, close}

abbrev pub notify_stage_starting : Stage → Client → Client
notify_stage_starting stage c = notify (starting stage) (record c { stage = stage })

abbrev pub notify_stage_complete : Stage → Client → Client
notify_stage_complete stage c = notify (complete stage) c

abbrev pub notify_stage_failed : Stage → Client → Client
notify_stage_failed stage c = notify (failed stage) c

-- The blocks of `cleanup`, one for each thing that is shut down.
abbrev pub cancel_context : Client → Client
cancel_context c = if c.has_context then notify cancelled c else c

abbrev pub close_input : Client → Client
close_input c = if c.has_input then notify input_closed (record c { has_input = false }) else c

abbrev pub stop_audio : Client → Client
stop_audio c = if c.has_audio then notify audio_stopped (record c { has_audio = false }) else c

abbrev pub stop_video : Client → Client
stop_video c = if c.has_video then notify video_stopped (record c { has_video = false }) else c

abbrev pub stop_control : Client → Client
stop_control c =
    if c.has_control then notify control_stopped (record c { has_control = false }) else c

-- The outcome of the TEARDOWN is not looked at.
unfoldable pub tear_down : Network → Client → Client
tear_down net c =
    if c.has_rtsp
    then notify rtsp_closed (record c { has_rtsp = false; rtsp = close (do_teardown net c.rtsp).0 })
    else c

unfoldable pub cleanup : Network → Client → Client
cleanup net c =
    tear_down net (stop_control (stop_video (stop_audio (close_input (cancel_context c)))))

-- What happens to the client after the body of a stage; `cleans` is whether `cleanup` is called. A
-- panic skips it all.
unfoldable pub finish_stage : Network → Stage → Bool → Client × Try Unit → Client × Try Unit
finish_stage net stage cleans (c, ok u) = (notify_stage_complete stage c, ok u)
finish_stage net stage cleans (c, err panics) = (c, err panics)
finish_stage net stage cleans (c, err e) =
    let told = notify_stage_failed stage c in (if cleans then cleanup net told else told, err e)

unfoldable pub run_stage :
    Network → Stage → Bool → (Client → Client × Try Unit) → Client → Client × Try Unit
run_stage net stage cleans body c =
    finish_stage net stage cleans (body (notify_stage_starting stage c))

-- The two messages of `controlStream.Start`, and whether each is written.
unfoldable pub sends_startup : Stream → Bool → Bool → Bool
sends_startup s writes_a writes_b = elim (send_start_a s writes_a).2 [
  | some e ↦ false
  | none ↦ elim (send_start_b (send_start_a s writes_a).0 writes_b).2 [
    | some e ↦ false
    | none ↦ true
  ]
]

-- `controlStream.Start`: a socket, and the messages.
abbrev pub starts_control : System → Client → Bool
starts_control sys c =
    let s : Stream = record (new_stream c.app_version c.is_sunshine) { has_conn = true } in
    sys.dials_control && sends_startup s sys.writes_start_a sys.writes_start_b

unfoldable pub init_control_stream : System → Client → Client × Try Unit
init_control_stream sys c = (
  record c { has_control = true },
  if starts_control sys c then ok tt else err (stream_failed control_stream_init),
)

unfoldable pub init_video_stream : System → Client → Client × Try Unit
init_video_stream sys c = (
  record c { has_video = true },
  if sys.listens_video && sys.sets_up_video then ok tt else err (stream_failed video_stream_init),
)

abbrev pub is_zero : ℤ → Bool
is_zero (pos n) = n == 0
is_zero (negsuc n) = false

-- `audioStream.Start` divides by the duration, after the socket is open and before the decoder is
-- set up.
unfoldable pub init_audio_stream : System → Client → Client × Try Unit
init_audio_stream sys c = (
  record c { has_audio = true },
  if not sys.listens_audio
      then err (stream_failed audio_stream_init)
      else if is_zero c.audio_packet_duration
      then err panics
      else if sys.inits_audio
      then ok tt
      else err (stream_failed audio_stream_init),
)

unfoldable pub init_input_stream : Client → Client × Try Unit
init_input_stream c = (record c { has_input = true }, ok tt)

-- The stages whose body is empty.
abbrev pub pass_stage : Stage → Client → Client
pass_stage stage c = notify_stage_complete stage (notify_stage_starting stage c)

-- What follows the last of the streams.
unfoldable pub complete_start : Client → Client × Try Unit
complete_start c =
    let passed : Client = pass_stage input_stream_start (
      pass_stage audio_stream_start
        (pass_stage video_stream_start (pass_stage control_stream_start c))) in
    (notify connection_started (record passed { stage = stage_complete; connected = true }), ok tt)

unfoldable pub start_input : System → Client → Client × Try Unit
start_input sys c =
    and_then (run_stage sys.net input_stream_init true init_input_stream c)
      (λ c' u. complete_start c')

unfoldable pub start_audio : System → Client → Client × Try Unit
start_audio sys c =
    and_then (run_stage sys.net audio_stream_init true (init_audio_stream sys) c)
      (λ c' u. start_input sys c')

unfoldable pub start_video : System → Client → Client × Try Unit
start_video sys c =
    and_then (run_stage sys.net video_stream_init true (init_video_stream sys) c)
      (λ c' u. start_audio sys c')

unfoldable pub start_control : System → Client → Client × Try Unit
start_control sys c =
    and_then (run_stage sys.net control_stream_init true (init_control_stream sys) c)
      (λ c' u. start_video sys c')

unfoldable pub start_rtsp : System → Client → Client × Try Unit
start_rtsp sys c =
    and_then (run_stage sys.net rtsp_handshake false (do_rtsp_handshake sys.net) c)
      (λ c' u. start_control sys c')

-- The address and the version of the server.
abbrev pub read_server : Bytes → ℤ → Client → Client
read_server ip port c =
    let read : Client = parse_app_version (record c { remote_ip = ip; remote_port = port }) in
    record read { is_sunshine = names_sunshine c.app_version_text }

-- From the platform stage on, with the address known.
unfoldable pub start_at : System → Bytes → ℤ → Client → Client × Try Unit
start_at sys ip port c = start_rtsp sys (pass_stage platform_init (read_server ip port c))

-- The first of the addresses that the name has.
unfoldable pub start_among : System → List Bytes → Bytes → Client → Client × Try Unit
start_among sys [] port c = (c, err unresolved)
start_among sys (ip ∷ ips) port c = start_at sys ip (atoi port).0 c

unfoldable pub start_host : System → Bytes → Bytes → Client → Client × Try Unit
start_host sys host port c = start_among sys (sys.lookup_ip host) port c

-- The address is a host and a port, or a host alone.
unfoldable pub start_fresh : System → Client → Client × Try Unit
start_fresh sys c = elim (split_host_port c.address) [
  | none ↦ start_host sys c.address (codes "47989") c
  | some (host, port) ↦ start_host sys host port c
]

unfoldable pub start : System → Client → Client × Try Unit
start sys c =
    if c.connected
    then (c, err already_connected)
    else start_fresh sys (record c { has_context = true })

unfoldable pub stop : System → Client → Client
stop sys c = if c.connected then record (cleanup sys.net c) { connected = false } else c
