-- ===== src/Limelight/Serving.antt =====
-- A server that answers every request with the status 200, and the handshake with it.
use moonparty.Base.Dict.{find}
use moonparty.Base.Result.{ok, err, Ends, and_then-Ends, Never}
use moonparty.Base.Text.{Bytes, codes, strip_prefix}
use moonparty.Base.{ℕ, ◌+◌, true, List, [], ◌∷◌, ℤ, ◌≡◌, refl, ap, ◌∙◌}
use moonparty.Limelight.Handshake.{
  duration_of, parse_server_sdp, on_rtsp, check_status, ask, note_ports, connect_rtsp, play,
  announce, set_up, describe, options, fresh_rtsp, do_rtsp_handshake,
}
use moonparty.Limelight.{Client, Failure, rtsp_error, step_failed}
use moonparty.Rtsp
use moonparty.Rtsp.Reading.{read_response, has_prefix}
use moonparty.Rtsp.Requests.{
  exchange, do_request, do_options, do_describe, do_announce, do_play, request_text,
}
use moonparty.Rtsp.Sdp.{build_sdp, parse_sdp}
use moonparty.Rtsp.Setup.{
  is_ok, check_setup, setup_stream, setup_control, setup_video, do_setup, note_session,
}
use moonparty.Rtsp.{Network, Response, StreamPorts, Reply, connect, close}

-- The status is 200. The answer to a request of DESCRIBE names `d` as the duration of an audio packet,
-- or none and `d` is the default.
pub record IsAnswer (d : ℤ) (request : Bytes) (resp : Response) : Type 0 where
  pub status : is_ok resp.status_code ≡ true
  pub duration :
      has_prefix (codes "DESCRIBE") request ≡ true
      → duration_of (find (codes "x-nv-audio.packetDuration") (parse_sdp resp.body)) ≡ d

-- The server takes every connection and request, and answers.
pub record Serves (d : ℤ) (net : Network) : Type 0 where
  pub dials : (n : ℕ) → net.dial n ≡ true
  pub takes : (n : ℕ) (request : Bytes) → net.accepts n request ≡ true
  pub answers :
      (n : ℕ) (request : Bytes)
      → (resp : Response) × ((read_response (net.answer n request) ≡ ok resp)
          × IsAnswer d request resp)

-- The same of the answer to a request of some method.
record Answered (d : ℤ) (method : Bytes) (resp : Response) : Type 0 where
  status : is_ok resp.status_code ≡ true
  duration :
      method ≡ codes "DESCRIBE"
      → duration_of (find (codes "x-nv-audio.packetDuration") (parse_sdp resp.body)) ≡ d

-- A request starts with its method.
request_text-starts :
    (c : moonparty.Rtsp.Client) (uri : Bytes) (headers : List (Bytes × Bytes)) (body : Bytes)
    → has_prefix (codes "DESCRIBE") (request_text c (codes "DESCRIBE") uri headers body) ≡ true
unfolding request_text strip_prefix
request_text-starts c uri headers body = refl

IsAnswer-Answered :
    (d : ℤ) (c : moonparty.Rtsp.Client) (method uri : Bytes) (headers : List (Bytes × Bytes))
    (body : Bytes) (resp : Response)
    → IsAnswer d (request_text c method uri headers body) resp
    → Answered d method resp
IsAnswer-Answered d c method uri headers body resp h = record {
  status = h.status;
  duration = λ same. h.duration (
      ap (λ (m : Bytes). has_prefix (codes "DESCRIBE") (request_text c m uri headers body)) same
      ∙ request_text-starts c uri headers body);
}

module _ (d : ℤ) (net : Network) (srv : Serves d net) where
  exchange-Serves :
      (n : ℕ) (c : moonparty.Rtsp.Client) (method uri : Bytes) (headers : List (Bytes × Bytes))
      (body : Bytes)
      → Ends Never (λ s resp. Answered d method resp) (exchange net n c method uri headers body)
  unfolding exchange
  exchange-Serves n c method uri headers body =
      let next : moonparty.Rtsp.Client = record c { cseq = c.cseq + 1 } in
      let request = request_text next method uri headers body in
      let (resp, (e, good)) = srv.answers n request in
      rw (srv.takes n request, e) (IsAnswer-Answered d next method uri headers body resp good)

  do_request-Serves :
      (c : moonparty.Rtsp.Client) (method uri : Bytes) (headers : List (Bytes × Bytes))
      (body : Bytes)
      → Ends Never (λ s resp. Answered d method resp) (do_request net c method uri headers body)
  unfolding do_request connect
  do_request-Serves c method uri headers body =
      rw (srv.dials (close c).dials) (exchange-Serves (close c).dials _ method uri headers body)

  setup_stream-Serves :
      (c : moonparty.Rtsp.Client) (name uri transport : Bytes)
      → Ends Never
          (λ s resp. Answered d (codes "SETUP") resp)
          (setup_stream net c name uri transport)
  unfolding setup_stream check_setup
  setup_stream-Serves c name uri transport =
      and_then-Ends Never (λ s resp. Answered d (codes "SETUP") resp)
        (λ s resp. Answered d (codes "SETUP") resp) _ (check_setup name)
        (do_request-Serves c _ uri _ []) (λ s (resp : Response) good. rw good.status good)

  do_setup-Serves :
      (c : moonparty.Rtsp.Client)
      → Ends Never (λ s (ports : StreamPorts). Unit {0}) (do_setup net c)
  unfolding do_setup setup_video setup_control
  do_setup-Serves c =
      and_then-Ends Never (λ s resp. Answered d (codes "SETUP") resp)
        (λ s (ports : StreamPorts). Unit {0}) _ _ (setup_stream-Serves c _ _ _)
        (λ s (resp : Response) good.
          and_then-Ends Never (λ s resp. Answered d (codes "SETUP") resp)
            (λ s (ports : StreamPorts). Unit {0}) _ _
            (setup_stream-Serves (note_session resp s) _ _ _)
            (λ s (resp' : Response) good.
              and_then-Ends Never (λ s resp. Answered d (codes "SETUP") resp)
                (λ s (ports : StreamPorts). Unit {0}) _ _ (setup_stream-Serves s _ _ _)
                (λ s (resp : Response) good. tt)))

-- A call of the RTSP client that gives no error gives none to the client around it.
on_rtsp-Never :
    {A : Type 0} (wrap : moonparty.Rtsp.RtspError → Failure)
    (call : moonparty.Rtsp.Client → moonparty.Rtsp.Client × Reply A) (c : Client)
    (P : Client → Type 0) (Q : A → Type 0)
    → ((r : moonparty.Rtsp.Client) → P (record c { rtsp = r }))
    → Ends Never (λ s a. Q a) (call c.rtsp)
    → Ends Never (λ s a. P s × Q a) (on_rtsp wrap call c)
on_rtsp-Never wrap call c P Q p h = given wrap c P Q p (call c.rtsp) h
  where
    given :
        {A : Type 0} (wrap : moonparty.Rtsp.RtspError → Failure) (c : Client) (P : Client → Type 0)
        (Q : A → Type 0)
        → ((r : moonparty.Rtsp.Client) → P (record c { rtsp = r }))
        → (m : moonparty.Rtsp.Client × Reply A) → Ends Never (λ s a. Q a) m
        → Ends Never (λ s a. P s × Q a) (on_rtsp wrap (λ r. m) c)
    given wrap c P Q p (r, ok a) h = (p r, h)
    given wrap c P Q p (r, err e) h = h

-- What the handshake does not change behind the answer to DESCRIBE.
abbrev pub Lasts : ℤ → Client → Unit {0} → Type 0
Lasts d c u = c.audio_packet_duration ≡ d

module _ (d : ℤ) (net : Network) (srv : Serves d net) where
  ask-Serves :
      (step method : Bytes) (headers : List (Bytes × Bytes)) (body : Bytes) (c : Client)
      (P : Client → Type 0)
      → ((r : moonparty.Rtsp.Client) → P (record c { rtsp = r }))
      → Ends Never
          (λ s resp. P s × Answered d method resp)
          (ask step (λ r. do_request net r method [] headers body) c)
  unfolding ask check_status
  ask-Serves step method headers body c P p =
      and_then-Ends Never (λ s resp. P s × Answered d method resp)
        (λ s resp. P s × Answered d method resp)
        (on_rtsp (step_failed step) (λ r. do_request net r method [] headers body) c)
        (check_status step)
        (on_rtsp-Never (step_failed step) (λ r. do_request net r method [] headers body) c P
          (Answered d method) p (do_request-Serves d net srv c.rtsp method [] headers body))
        (λ s (resp : Response) good. rw good.1.status good)

  play-Serves : (c : Client) → c.audio_packet_duration ≡ d → Ends Never (Lasts d) (play net c)
  unfolding play do_play
  play-Serves c h =
      and_then-Ends Never (λ s resp. Lasts d s tt × Answered d (codes "PLAY") resp) (Lasts d) _ _
        (ask-Serves (codes "PLAY") (codes "PLAY") [] [] c (λ s. Lasts d s tt) (λ r. h))
        (λ s resp good. good.0)

  announce-Serves :
      (c : Client) → c.audio_packet_duration ≡ d → Ends Never (Lasts d) (announce net c)
  unfolding announce do_announce
  announce-Serves c h =
      and_then-Ends Never (λ s resp. Lasts d s tt × Answered d (codes "ANNOUNCE") resp) (Lasts d) _
        _
        (ask-Serves (codes "ANNOUNCE") (codes "ANNOUNCE")
          ((codes "Content-type", codes "application/sdp") ∷ [])
          (build_sdp c.config.width c.config.height c.config.fps c.config.packet_size) c
          (λ s. Lasts d s tt) (λ r. h))
        (λ s resp good. play-Serves s good.0)

  set_up-Serves : (c : Client) → c.audio_packet_duration ≡ d → Ends Never (Lasts d) (set_up net c)
  unfolding set_up note_ports
  set_up-Serves c h =
      and_then-Ends Never (λ s (ports : StreamPorts). Lasts d s tt × Unit {0}) (Lasts d) _ _
        (on_rtsp-Never rtsp_error (do_setup net) c (λ s. Lasts d s tt)
          (λ (ports : StreamPorts). Unit {0}) (λ r. h) (do_setup-Serves d net srv c.rtsp))
        (λ s ports good. announce-Serves (note_ports s ports) good.0)

  describe-Serves : (c : Client) → Ends Never (Lasts d) (describe net c)
  unfolding describe do_describe parse_server_sdp
  describe-Serves c =
      and_then-Ends Never (λ s resp. Unit {0} × Answered d (codes "DESCRIBE") resp) (Lasts d) _ _
        (ask-Serves (codes "DESCRIBE") (codes "DESCRIBE")
          ((codes "Accept", codes "application/sdp") ∷ []) [] c (λ s. Unit {0}) (λ r. tt))
        (λ s (resp : Response) good.
          set_up-Serves (parse_server_sdp s (parse_sdp resp.body)) (good.1.duration refl))

  options-Serves : (c : Client) → Ends Never (Lasts d) (options net c)
  unfolding options do_options
  options-Serves c =
      and_then-Ends Never (λ s resp. Unit {0} × Answered d (codes "OPTIONS") resp) (Lasts d) _ _
        (ask-Serves (codes "OPTIONS") (codes "OPTIONS") [] [] c (λ s. Unit {0}) (λ r. tt))
        (λ s resp good. describe-Serves s)

  connect_rtsp-Serves :
      (r : moonparty.Rtsp.Client) → Ends Never (λ s (u : Unit {0}). Unit {0}) (connect_rtsp net r)
  unfolding connect
  connect_rtsp-Serves r = rw (srv.dials r.dials) tt

  -- The handshake with such a server ends, and by no error.
  pub do_rtsp_handshake-Serves : (c : Client) → Ends Never (Lasts d) (do_rtsp_handshake net c)
  unfolding do_rtsp_handshake
  do_rtsp_handshake-Serves c =
      and_then-Ends Never (λ s (u : Unit {0}). Unit {0} × Unit {0}) (Lasts d) _ _
        (on_rtsp-Never rtsp_error (connect_rtsp net) (fresh_rtsp c) (λ s. Unit {0})
          (λ (u : Unit {0}). Unit {0}) (λ r. tt) (connect_rtsp-Serves (fresh_rtsp c).rtsp))
        (λ s u good. options-Serves s)
