-- ===== src/Rtsp/Requests.antt =====
-- moonlight-common-go/rtsp/rtsp.go: `doRequest`, and the requests without a loop.
use moonparty.Base.Text.{Bytes, codes, crlf, is_empty, text_eq, itoa, decimal}
use moonparty.Base.{ℕ, ◌+◌, not, ◌&&◌, List, [], ◌∷◌, ◌++◌, length, if◌then◌else◌}
use moonparty.Rtsp.Reading.{read_response}
use moonparty.Base.Result.{err}
use moonparty.Rtsp.{
  Client, Network, Response, Reply, connect_failed, send_failed, sent, connect, close,
}

-- A header line, as `Fprintf("%s: %s\r\n")` writes it.
abbrev pub header_line : Bytes → Bytes → Bytes
header_line k v = k ++ b':' ∷ b' ' ∷ v ++ crlf

abbrev pub header_lines : List (Bytes × Bytes) → Bytes
header_lines [] = []
header_lines ((k, v) ∷ fields) = header_line k v ++ header_lines fields

unfoldable pub target : Client → Bytes → Bytes → Bytes
target c method uri =
    let base = codes "rtsp://" ++ c.server_ip ++ b':' ∷ itoa c.server_port in
    if not (is_empty uri) && text_eq method (codes "SETUP") then base ++ b'/' ∷ uri else base

-- The request that is written. The maps of headers hold one entry at most, so that their order
-- does not matter.
unfoldable pub request_text : Client → Bytes → Bytes → List (Bytes × Bytes) → Bytes → Bytes
unfolding target
request_text c method uri headers body =
    method
    ++ b' ' ∷ target c method uri
    ++ codes " RTSP/1.0"
    ++ crlf
    ++ header_line (codes "CSeq") (decimal c.cseq)
    ++ header_line (codes "X-GS-ClientVersion") (codes "14")
    ++ header_line (codes "Host") c.server_ip
    ++ (if is_empty c.session_id then [] else header_line (codes "Session") c.session_id)
    ++ header_lines headers
    ++ (if is_empty body then [] else header_line (codes "Content-length") (decimal (length body)))
    ++ crlf
    ++ body

abbrev pub send : Client → Bytes → Client
send c request = record c { events = c.events ++ sent request ∷ [] }

-- On a connection that is open, from `c.cseq++` on; `n` is its number.
unfoldable pub exchange :
    Network → ℕ → Client → Bytes → Bytes → List (Bytes × Bytes) → Bytes → Client × Reply Response
exchange net n c method uri headers body =
    let next : Client = record c { cseq = c.cseq + 1 } in
    let request = request_text next method uri headers body in
    if net.accepts n request
    then (send next request, read_response (net.answer n request))
    else (next, err send_failed)

unfoldable pub do_request :
    Network → Client → Bytes → Bytes → List (Bytes × Bytes) → Bytes → Client × Reply Response
do_request net c method uri headers body =
    let hung : Client = close c in
    let (opened, connected) = connect net hung in
    if connected
    then exchange net hung.dials opened method uri headers body
    else (opened, err connect_failed)

unfoldable pub do_options : Network → Client → Client × Reply Response
do_options net c = do_request net c (codes "OPTIONS") [] [] []

unfoldable pub do_announce : Network → Client → Bytes → Client × Reply Response
do_announce net c sdp =
    do_request net c (codes "ANNOUNCE") [] ((codes "Content-type", codes "application/sdp") ∷ [])
      sdp

unfoldable pub do_describe : Network → Client → Client × Reply Response
do_describe net c =
    do_request net c (codes "DESCRIBE") [] ((codes "Accept", codes "application/sdp") ∷ []) []

unfoldable pub do_play : Network → Client → Client × Reply Response
do_play net c = do_request net c (codes "PLAY") [] [] []

unfoldable pub do_teardown : Network → Client → Client × Reply Response
do_teardown net c = do_request net c (codes "TEARDOWN") [] [] []
