-- ===== src/Rtsp/Setup.antt =====
-- moonlight-common-go/rtsp/rtsp.go: `DoSetup`.
use moonparty.Base.Dict.{get}
use moonparty.Base.Text.{Bytes, codes, is_empty, equal_fold, trim_space, split}
use moonparty.Base.{Bool, false, not, ◌&&◌, List, [], ◌∷◌, ℤ, pos, ◌==◌, if◌then◌else◌}
use moonparty.Rtsp.Requests.{do_request}
use moonparty.Rtsp.Reading.{parse_transport_port}
use moonparty.Base.Result.{ok, err, and_then}
use moonparty.Rtsp.{Client, Network, Response, StreamPorts, Reply, setup_failed}

abbrev pub is_ok : ℤ → Bool
is_ok (pos n) = n == 200
is_ok _ = false

abbrev first_part : List Bytes → Bytes
first_part [] = []
first_part (p ∷ ps) = p

-- The session of the first response is kept.
unfoldable pub note_session : Response → Client → Client
note_session resp c =
    let session = get (codes "Session") resp.headers in
    if not (is_empty session) && is_empty c.session_id
    then record c { session_id = trim_space (first_part (split b';' session)) }
    else c

-- The loop over the headers, up to its `break`, from the payload there is before it.
unfoldable pub ping_payload : List (Bytes × Bytes) → Bytes → Bytes
ping_payload [] old = old
ping_payload ((k, v) ∷ fields) old =
    let rest = ping_payload fields old in
    if equal_fold k (codes "X-SS-Ping-Payload") && not (is_empty v) then v else rest

-- The test of a status.
unfoldable pub check_setup : Bytes → Client → Response → Client × Reply Response
check_setup name c resp =
    if is_ok resp.status_code
    then (c, ok resp)
    else (c, err (setup_failed name resp.status_code resp.status_text))

-- One SETUP.
unfoldable pub setup_stream : Network → Client → Bytes → Bytes → Bytes → Client × Reply Response
setup_stream net c name uri transport =
    and_then (do_request net c (codes "SETUP") uri ((codes "Transport", transport) ∷ []) [])
      (check_setup name)

abbrev port_of : Response → ℤ
port_of resp = parse_transport_port (get (codes "Transport") resp.headers)

unfoldable pub note_audio : Network → Response → StreamPorts
note_audio net resp = record {
  video_port = pos 0;
  audio_port = port_of resp;
  control_port = pos 0;
  ping_payload = ping_payload (net.range resp.headers) [];
}

unfoldable pub note_video : Network → StreamPorts → Response → StreamPorts
note_video net ports resp =
    let old = ports.ping_payload in
    record ports {
      ping_payload = if is_empty old then ping_payload (net.range resp.headers) old else old;
      video_port = port_of resp;
    }

unfoldable pub note_control : StreamPorts → Response → StreamPorts
note_control ports resp = record ports { control_port = port_of resp }

unfoldable pub setup_control : Network → StreamPorts → Client → Client × Reply StreamPorts
setup_control net ports c =
    and_then
      (setup_stream net c (codes "control") (codes "streamid=control/13/0")
        (codes "unicast;client_port=47801"))
      (λ c' resp. (c', ok (note_control ports resp)))

unfoldable pub setup_video : Network → StreamPorts → Client → Client × Reply StreamPorts
setup_video net ports c =
    and_then
      (setup_stream net c (codes "video") (codes "streamid=video/0/0")
        (codes "unicast;client_port=47800"))
      (λ c' resp. setup_control net (note_video net ports resp) c')

unfoldable pub do_setup : Network → Client → Client × Reply StreamPorts
do_setup net c =
    and_then
      (setup_stream net c (codes "audio") (codes "streamid=audio/0/0")
        (codes "unicast;client_port=48200"))
      (λ c' resp. setup_video net (note_audio net resp) (note_session resp c'))
