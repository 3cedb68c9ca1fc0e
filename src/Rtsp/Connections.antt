-- ===== src/Rtsp/Connections.antt =====
-- The connections of the RTSP client: one is open at most, whatever fails.
use moonparty.Base.Text.{Bytes, codes}
use moonparty.Base.{
  ℕ, suc, ◌+◌, false, inl, inr, List, [], ◌∷◌, ◌++◌, ◌≡◌, refl, arith, ℤ, if◌then◌else◌, Bool-cases,
}
use moonparty.Rtsp.Requests.{
  exchange, do_request, request_text, do_options, do_describe, do_announce, do_play, do_teardown,
}
use moonparty.Rtsp.Setup.{
  is_ok, note_session, note_audio, note_video, check_setup, setup_stream, setup_control,
  setup_video, do_setup,
}
use moonparty.Base.Result.{and_then-keeps}
use moonparty.Rtsp.{
  Client, Event, dialled, hung_up, sent, Network, Response, StreamPorts, new_client, connect, close,
}

abbrev pub opened : List Event → ℕ
opened [] = 0
opened (dialled ∷ es) = suc (opened es)
opened (_ ∷ es) = opened es

abbrev pub closed : List Event → ℕ
closed [] = 0
closed (hung_up ∷ es) = suc (closed es)
closed (_ ∷ es) = closed es

opened-append : (a b : List Event) → opened (a ++ b) ≡ opened a + opened b
opened-append [] b = omega arith
opened-append (dialled ∷ a) b = omega (arith, opened-append a b)
opened-append (hung_up ∷ a) b = opened-append a b
opened-append (sent r ∷ a) b = opened-append a b

closed-append : (a b : List Event) → closed (a ++ b) ≡ closed a + closed b
closed-append [] b = omega arith
closed-append (dialled ∷ a) b = closed-append a b
closed-append (hung_up ∷ a) b = omega (arith, closed-append a b)
closed-append (sent r ∷ a) b = closed-append a b

-- The connections opened are those closed, and the one that the client holds if it holds one.
pub IsTidy : Client → Type 0
IsTidy c = opened c.events ≡ closed c.events + (if c.has_conn then 1 else 0)

pub new_client-IsTidy : (ip : Bytes) (port : ℤ) → IsTidy (new_client ip port)
unfolding IsTidy new_client
new_client-IsTidy ip port = refl

pub close-IsTidy : (c : Client) → IsTidy c → IsTidy (close c)
unfolding IsTidy close
close-IsTidy c h =
    ground (arith, opened-append c.events (hung_up ∷ []), closed-append c.events (hung_up ∷ []))

pub close-has_conn : (c : Client) → (close c).has_conn ≡ false
unfolding close
close-has_conn c = ground arith

-- Only a client that holds no connection dials without losing one.
pub connect-IsTidy :
    (net : Network) (c : Client) → IsTidy c → c.has_conn ≡ false → IsTidy (connect net c).0
unfolding IsTidy connect
connect-IsTidy net c h f =
    ground (arith, opened-append c.events (dialled ∷ []), closed-append c.events (dialled ∷ []))

exchange-IsTidy :
    (net : Network) (n : ℕ) (c : Client) (method uri : Bytes) (headers : List (Bytes × Bytes))
    (body : Bytes)
    → IsTidy c
    → IsTidy (exchange net n c method uri headers body).0
unfolding IsTidy exchange
exchange-IsTidy net n c method uri headers body h =
    let request = request_text (record c { cseq = c.cseq + 1 }) method uri headers body in
    ground (
      arith,
      opened-append c.events (sent request ∷ []),
      closed-append c.events (sent request ∷ []),
    )

pub do_request-IsTidy :
    (net : Network) (c : Client) (method uri : Bytes) (headers : List (Bytes × Bytes))
    (body : Bytes)
    → IsTidy c
    → IsTidy (do_request net c method uri headers body).0
unfolding do_request
do_request-IsTidy net c method uri headers body h =
    let joined = connect-IsTidy net (close c) (close-IsTidy c h) (close-has_conn c) in
    elim (Bool-cases (connect net (close c)).1) [
      | inl e ↦ rw e (
          exchange-IsTidy net (close c).dials (connect net (close c)).0 method uri headers body
            joined)
      | inr e ↦ rw e joined
    ]

module _ {ℓ} (P : Client → Type ℓ) where
  check_setup-keeps :
      (name : Bytes) (c : Client) (resp : Response) → P c → P (check_setup name c resp).0
  unfolding check_setup
  check_setup-keeps name c resp h = elim (Bool-cases (is_ok resp.status_code)) [
    | inl e ↦ rw e h
    | inr e ↦ rw e h
  ]

-- What every request keeps, and the note of the session, all of `DoSetup` keeps.
module _ {ℓ} (net : Network) (P : Client → Type ℓ)
    (request : (c : Client) (method uri : Bytes) (headers : List (Bytes × Bytes)) (body : Bytes)
      → P c
      → P (do_request net c method uri headers body).0)
    (session : (resp : Response) (c : Client) → P c → P (note_session resp c)) where
  setup_stream-keeps :
      (c : Client) (name uri transport : Bytes) → P c → P (setup_stream net c name uri transport).0
  unfolding setup_stream
  setup_stream-keeps c name uri transport h =
      and_then-keeps P _ (check_setup name) (request c _ uri _ [] h)
        (λ s resp p. check_setup-keeps P name s resp p)

  setup_control-keeps : (ports : StreamPorts) (c : Client) → P c → P (setup_control net ports c).0
  unfolding setup_control
  setup_control-keeps ports c h =
      and_then-keeps P _ _ (setup_stream-keeps c _ _ _ h) (λ s resp p. p)

  setup_video-keeps : (ports : StreamPorts) (c : Client) → P c → P (setup_video net ports c).0
  unfolding setup_video
  setup_video-keeps ports c h =
      and_then-keeps P _ _ (setup_stream-keeps c _ _ _ h)
        (λ s resp p. setup_control-keeps (note_video net ports resp) s p)

  pub do_setup-keeps : (c : Client) → P c → P (do_setup net c).0
  unfolding do_setup
  do_setup-keeps c h =
      and_then-keeps P _ _ (setup_stream-keeps c _ _ _ h) (λ s resp p.
        setup_video-keeps (note_audio net resp) (note_session resp s) (session resp s p))

note_session-IsTidy : (resp : Response) (c : Client) → IsTidy c → IsTidy (note_session resp c)
unfolding IsTidy note_session
note_session-IsTidy resp c h = ground arith

pub do_setup-IsTidy : (net : Network) (c : Client) → IsTidy c → IsTidy (do_setup net c).0
do_setup-IsTidy net = do_setup-keeps net IsTidy (do_request-IsTidy net) note_session-IsTidy

pub do_teardown-IsTidy : (net : Network) (c : Client) → IsTidy c → IsTidy (do_teardown net c).0
unfolding do_teardown
do_teardown-IsTidy net c h = do_request-IsTidy net c (codes "TEARDOWN") [] [] [] h

pub IsTidy-closed : (c : Client) → IsTidy c → c.has_conn ≡ false → opened c.events ≡ closed c.events
unfolding IsTidy
IsTidy-closed c h f = ground arith

-- The rest of the requests, and the connection without one.
pub do_options-IsTidy : (net : Network) (c : Client) → IsTidy c → IsTidy (do_options net c).0
unfolding do_options
do_options-IsTidy net c h = do_request-IsTidy net c (codes "OPTIONS") [] [] [] h

pub do_describe-IsTidy : (net : Network) (c : Client) → IsTidy c → IsTidy (do_describe net c).0
unfolding do_describe
do_describe-IsTidy net c h = do_request-IsTidy net c (codes "DESCRIBE") [] _ [] h

pub do_announce-IsTidy :
    (net : Network) (sdp : Bytes) (c : Client) → IsTidy c → IsTidy (do_announce net c sdp).0
unfolding do_announce
do_announce-IsTidy net sdp c h = do_request-IsTidy net c (codes "ANNOUNCE") [] _ sdp h

pub do_play-IsTidy : (net : Network) (c : Client) → IsTidy c → IsTidy (do_play net c).0
unfolding do_play
do_play-IsTidy net c h = do_request-IsTidy net c (codes "PLAY") [] [] [] h
