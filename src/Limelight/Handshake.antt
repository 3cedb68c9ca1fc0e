-- ===== src/Limelight/Handshake.antt =====
-- moonlight-common-go/limelight/client.go: `doRTSPHandshake` and `parseServerSDP`.
use Prim.Native.Nat.{bit_and}
use moonparty.Base.Dict.{find}
use moonparty.Base.Result.{ok, err, and_then}
use moonparty.Base.Text.{Bytes, codes, text_eq, atoi}
use moonparty.Base.{
  ℕ, ◌*◌, Bool, true, false, ◌&&◌, Option, none, some, List, [], ◌∷◌, ℤ, pos, negsuc, i64, ◌!=◌,
  ◌==◌, ◌-◌, ◌+◌, if◌then◌else◌,
}
use moonparty.Limelight.{Client, Failure, rtsp_error, step_failed, bad_status, Try}
use moonparty.Rtsp
use moonparty.Rtsp.Requests.{do_options, do_describe, do_announce, do_play}
use moonparty.Rtsp.Sdp.{build_sdp, parse_sdp}
use moonparty.Rtsp.Setup.{is_ok, do_setup}
use moonparty.Rtsp.{Network, Response, StreamPorts, Reply, connect}

abbrev pub video_format_h264 : ℕ
video_format_h264 = 0x0001

abbrev pub video_format_h265 : ℕ
video_format_h265 = 0x0100

abbrev pub video_format_av1 : ℕ
video_format_av1 = 0x0200

-- `val, ok := sdp[key]; ok && val == "1"`.
abbrev is_one : Option Bytes → Bool
is_one none = false
is_one (some v) = text_eq v (codes "1")

abbrev pub chosen_format : ℕ → List (Bytes × Bytes) → ℕ
chosen_format supported sdp =
    let hevc = is_one (find (codes "x-nv-video[0].hevcSupport") sdp) in
    let av1 = is_one (find (codes "x-nv-video[0].av1Support") sdp) in
    if av1 && bit_and supported video_format_av1 != 0
    then video_format_av1
    else if hevc && bit_and supported video_format_h265 != 0
    then video_format_h265
    else video_format_h264

abbrev pub duration_of : Option Bytes → ℤ
duration_of none = pos 5
duration_of (some v) = if (atoi v).1 then (atoi v).0 else pos 5

-- `48 * duration`, which wraps around in 64 bits.
abbrev times_48 : ℤ → ℤ
times_48 (pos n) = i64 (pos (48 * n))
times_48 (negsuc n) = i64 (negsuc (48 * (n + 1) - 1))

unfoldable pub parse_server_sdp : Client → List (Bytes × Bytes) → Client
parse_server_sdp c sdp =
    let duration = duration_of (find (codes "x-nv-audio.packetDuration") sdp) in
    record c {
      video_format = chosen_format c.config.supported_video_formats sdp;
      audio_packet_duration = duration;
      opus_config = some (record {
        sample_rate = pos 48000;
        channel_count = pos 2;
        streams = pos 1;
        coupled_streams = pos 1;
        samples_per_frame = times_48 duration;
        channel_mapping = 0 ∷ 1 ∷ [];
      });
    }

-- A call on `c.rtspClient`, with what its error becomes.
abbrev pub on_rtsp :
    {A : Type 0}
    → (moonparty.Rtsp.RtspError → Failure)
    → (moonparty.Rtsp.Client → moonparty.Rtsp.Client × Reply A)
    → Client
    → Client × Try A
on_rtsp wrap call c =
    let (rtsp, reply) = call c.rtsp in
    (record c { rtsp = rtsp }, elim reply [ ok a ↦ ok a | err e ↦ err (wrap e) ])

unfoldable pub check_status : Bytes → Client → Response → Client × Try Response
check_status step c resp =
    if is_ok resp.status_code
    then (c, ok resp)
    else (c, err (bad_status step resp.status_code resp.status_text))

-- One of the requests, with the tests behind it.
unfoldable pub ask :
    Bytes
    → (moonparty.Rtsp.Client → moonparty.Rtsp.Client × Reply Response)
    → Client
    → Client × Try Response
ask step call c = and_then (on_rtsp (step_failed step) call c) (check_status step)

abbrev or_default : ℤ → ℕ → ℤ
or_default (pos n) d = if n == 0 then pos d else pos n
or_default (negsuc n) d = negsuc n

-- The ports of the streams, with the fallbacks.
unfoldable pub note_ports : Client → StreamPorts → Client
note_ports c ports = record c {
  video_port = or_default ports.video_port 47998;
  audio_port = or_default ports.audio_port 48000;
  control_port = or_default ports.control_port 47999;
  ping_payload = ports.ping_payload;
}

abbrev pub connect_rtsp : Network → moonparty.Rtsp.Client → moonparty.Rtsp.Client × Reply {0} Unit
connect_rtsp net r =
    let (r', connected) = connect net r in
    (r', if connected then ok tt else err moonparty.Rtsp.connect_failed)

unfoldable pub play : Network → Client → Client × Try Unit
play net c = and_then (ask (codes "PLAY") (do_play net) c) (λ c' resp. (c', ok tt))

unfoldable pub announce : Network → Client → Client × Try Unit
announce net c =
    let cfg = c.config in
    let sdp = build_sdp cfg.width cfg.height cfg.fps cfg.packet_size in
    and_then (ask (codes "ANNOUNCE") (λ r. do_announce net r sdp) c) (λ c' resp. play net c')

unfoldable pub set_up : Network → Client → Client × Try Unit
set_up net c =
    and_then (on_rtsp rtsp_error (do_setup net) c) (λ c' ports. announce net (note_ports c' ports))

unfoldable pub describe : Network → Client → Client × Try Unit
describe net c =
    and_then (ask (codes "DESCRIBE") (do_describe net) c)
      (λ c' resp. set_up net (parse_server_sdp c' (parse_sdp resp.body)))

unfoldable pub options : Network → Client → Client × Try Unit
options net c = and_then (ask (codes "OPTIONS") (do_options net) c) (λ c' resp. describe net c')

abbrev pub fresh_rtsp : Client → Client
fresh_rtsp c = record c {
  has_rtsp = true;
  rtsp = moonparty.Rtsp.new_client c.remote_ip (pos 48010);
}

unfoldable pub do_rtsp_handshake : Network → Client → Client × Try Unit
do_rtsp_handshake net c =
    and_then (on_rtsp rtsp_error (connect_rtsp net) (fresh_rtsp c)) (λ c' u. options net c')
