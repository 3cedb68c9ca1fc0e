-- ===== src/Limelight/Shaking.antt =====
-- What the handshake keeps: the streams that the client holds, its RTSP client, and that this one
-- has at most the one connection open that it holds.
use moonparty.Base.Result.{and_then-keeps}
use moonparty.Base.Text.{Bytes}
use moonparty.Base.{Bool, true, inl, inr, List, ◌≡◌, refl, Bool-cases, pos}
use moonparty.Limelight.Handshake.{
  parse_server_sdp, on_rtsp, check_status, ask, note_ports, connect_rtsp, play, announce, set_up,
  describe, options, fresh_rtsp, do_rtsp_handshake,
}
use moonparty.Limelight.Shape.{Shape}
use moonparty.Limelight.{Client, Failure, rtsp_error, step_failed}
use moonparty.Rtsp
use moonparty.Rtsp.Connections.{
  IsTidy, new_client-IsTidy, connect-IsTidy, do_options-IsTidy, do_describe-IsTidy,
  do_announce-IsTidy, do_play-IsTidy, do_setup-IsTidy,
}
use moonparty.Rtsp.Sdp.{parse_sdp}
use moonparty.Rtsp.Setup.{is_ok, do_setup}
use moonparty.Rtsp.{Network, Response, StreamPorts, Reply}

-- The streams, an RTSP client, and its connections.
abbrev pub Held : Bool → Bool → Bool → Bool → Bool → Client → Type 0
Held a b d e k c = Shape a b d e k c × ((c.has_rtsp ≡ true) × IsTidy c.rtsp)

module _ {a b d e k : Bool} where
  on_rtsp-Held :
      {A : Type 0} (wrap : moonparty.Rtsp.RtspError → Failure)
      (call : moonparty.Rtsp.Client → moonparty.Rtsp.Client × Reply A) (c : Client)
      → IsTidy (call c.rtsp).0
      → Held a b d e k c
      → Held a b d e k (on_rtsp wrap call c).0
  on_rtsp-Held wrap call c t (s, (h, u)) = (s, (h, t))

  check_status-Held :
      (step : Bytes) (c : Client) (resp : Response)
      → Held a b d e k c
      → Held a b d e k (check_status step c resp).0
  unfolding check_status
  check_status-Held step c resp h = elim (Bool-cases (is_ok resp.status_code)) [
    | inl e ↦ rw e h
    | inr e ↦ rw e h
  ]

  ask-Held :
      (step : Bytes) (call : moonparty.Rtsp.Client → moonparty.Rtsp.Client × Reply Response)
      (c : Client)
      → ((r : moonparty.Rtsp.Client) → IsTidy r → IsTidy (call r).0)
      → Held a b d e k c
      → Held a b d e k (ask step call c).0
  unfolding ask
  ask-Held step call c t (s, (h, u)) =
      and_then-keeps (Held a b d e k) _ (check_status step)
        (on_rtsp-Held (step_failed step) call c (t c.rtsp u) (s, (h, u))) (check_status-Held step)

  parse_server_sdp-Held :
      (c : Client) (sdp : List (Bytes × Bytes))
      → Held a b d e k c
      → Held a b d e k (parse_server_sdp c sdp)
  unfolding parse_server_sdp
  parse_server_sdp-Held c sdp h = h

  note_ports-Held :
      (c : Client) (ports : StreamPorts) → Held a b d e k c → Held a b d e k (note_ports c ports)
  unfolding note_ports
  note_ports-Held c ports h = h

  play-Held : (net : Network) (c : Client) → Held a b d e k c → Held a b d e k (play net c).0
  unfolding play
  play-Held net c h =
      and_then-keeps (Held a b d e k) _ _ (ask-Held _ _ c (do_play-IsTidy net) h) (λ s resp p. p)

  announce-Held :
      (net : Network) (c : Client) → Held a b d e k c → Held a b d e k (announce net c).0
  unfolding announce
  announce-Held net c h =
      and_then-keeps (Held a b d e k) _ _ (ask-Held _ _ c (do_announce-IsTidy net _) h)
        (λ s resp p. play-Held net s p)

  set_up-Held : (net : Network) (c : Client) → Held a b d e k c → Held a b d e k (set_up net c).0
  unfolding set_up
  set_up-Held net c (s, (h, t)) =
      and_then-keeps (Held a b d e k) _ _
        (on_rtsp-Held rtsp_error (do_setup net) c (do_setup-IsTidy net c.rtsp t) (s, (h, t)))
        (λ s ports p. announce-Held net (note_ports s ports) (note_ports-Held s ports p))

  describe-Held :
      (net : Network) (c : Client) → Held a b d e k c → Held a b d e k (describe net c).0
  unfolding describe
  describe-Held net c h =
      and_then-keeps (Held a b d e k) _ _ (ask-Held _ _ c (do_describe-IsTidy net) h)
        (λ s (resp : Response) p.
          set_up-Held net (parse_server_sdp s (parse_sdp resp.body))
            (parse_server_sdp-Held s (parse_sdp resp.body) p))

  options-Held : (net : Network) (c : Client) → Held a b d e k c → Held a b d e k (options net c).0
  unfolding options
  options-Held net c h =
      and_then-keeps (Held a b d e k) _ _ (ask-Held _ _ c (do_options-IsTidy net) h)
        (λ s resp p. describe-Held net s p)

  -- Whatever the handshake comes to, it is the new RTSP client that is there.
  pub do_rtsp_handshake-Held :
      (net : Network) (c : Client) → Shape a b d e k c → Held a b d e k (do_rtsp_handshake net c).0
  unfolding do_rtsp_handshake
  do_rtsp_handshake-Held net c s =
      let r = (fresh_rtsp c).rtsp in
      let tidy = new_client-IsTidy c.remote_ip (pos 48010) in
      let joined = connect-IsTidy net r tidy (unfold moonparty.Rtsp.new_client in refl) in
      and_then-keeps (Held a b d e k) _ _
        (on_rtsp-Held rtsp_error (connect_rtsp net) (fresh_rtsp c) joined (s, (refl, tidy)))
        (λ s u p. options-Held net s p)
