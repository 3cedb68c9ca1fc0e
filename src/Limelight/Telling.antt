-- ===== src/Limelight/Telling.antt =====
-- The handshake tells the listener nothing, and is one stage throughout.
use moonparty.Base.Result.{and_then-keeps}
use moonparty.Base.Text.{Bytes}
use moonparty.Base.{Bool, true, inl, inr, List, ◌≡◌, refl, Bool-cases}
use moonparty.Limelight.Handshake.{
  parse_server_sdp, on_rtsp, check_status, ask, note_ports, connect_rtsp, play, announce, set_up,
  describe, options, fresh_rtsp, do_rtsp_handshake,
}
use moonparty.Limelight.{Client, step_failed, rtsp_error}
use moonparty.Rtsp
use moonparty.Rtsp.Sdp.{parse_sdp}
use moonparty.Rtsp.Setup.{is_ok, do_setup}
use moonparty.Rtsp.{Network, Response, StreamPorts, Reply}

-- What no call of the RTSP client and no note of what it found changes, the handshake keeps.
module _ (net : Network) (P : Client → Type 0)
    (rtsp : (c : Client) (r : moonparty.Rtsp.Client) (h : Bool)
      → P c
      → P (record c { rtsp = r; has_rtsp = h }))
    (sdp : (c : Client) (m : List (Bytes × Bytes)) → P c → P (parse_server_sdp c m))
    (noted : (c : Client) (ports : StreamPorts) → P c → P (note_ports c ports)) where
  ask-keeps :
      (step : Bytes) (call : moonparty.Rtsp.Client → moonparty.Rtsp.Client × Reply Response)
      (c : Client)
      → P c
      → P (ask step call c).0
  unfolding ask check_status
  ask-keeps step call c h =
      and_then-keeps P (on_rtsp (step_failed step) call c) (check_status step)
        (rtsp c (call c.rtsp).0 c.has_rtsp h)
        (λ s (resp : Response) p. elim (Bool-cases (is_ok resp.status_code)) [
          | inl e ↦ rw e p
          | inr e ↦ rw e p
        ])

  play-keeps : (c : Client) → P c → P (play net c).0
  unfolding play
  play-keeps c h = and_then-keeps P _ _ (ask-keeps _ _ c h) (λ s resp p. p)

  announce-keeps : (c : Client) → P c → P (announce net c).0
  unfolding announce
  announce-keeps c h = and_then-keeps P _ _ (ask-keeps _ _ c h) (λ s resp p. play-keeps s p)

  set_up-keeps : (c : Client) → P c → P (set_up net c).0
  unfolding set_up
  set_up-keeps c h =
      and_then-keeps P (on_rtsp rtsp_error (do_setup net) c) _
        (rtsp c (do_setup net c.rtsp).0 c.has_rtsp h)
        (λ s ports p. announce-keeps (note_ports s ports) (noted s ports p))

  describe-keeps : (c : Client) → P c → P (describe net c).0
  unfolding describe
  describe-keeps c h = and_then-keeps P _ _ (ask-keeps _ _ c h) (λ s (resp : Response) p.
      set_up-keeps (parse_server_sdp s (parse_sdp resp.body)) (sdp s (parse_sdp resp.body) p))

  options-keeps : (c : Client) → P c → P (options net c).0
  unfolding options
  options-keeps c h = and_then-keeps P _ _ (ask-keeps _ _ c h) (λ s resp p. describe-keeps s p)

  do_rtsp_handshake-keeps : (c : Client) → P c → P (do_rtsp_handshake net c).0
  unfolding do_rtsp_handshake
  do_rtsp_handshake-keeps c h =
      and_then-keeps P (on_rtsp rtsp_error (connect_rtsp net) (fresh_rtsp c)) _
        (rtsp c (connect_rtsp net (fresh_rtsp c).rtsp).0 true h) (λ s u p. options-keeps s p)

pub handshake_tells_nothing :
    (net : Network) (c : Client) → (do_rtsp_handshake net c).0.notices ≡ c.notices
unfolding parse_server_sdp note_ports
handshake_tells_nothing net c =
    do_rtsp_handshake-keeps net (λ s. s.notices ≡ c.notices) (λ s r h p. p) (λ s m p. p)
      (λ s ports p. p) c refl

pub handshake_stage : (net : Network) (c : Client) → (do_rtsp_handshake net c).0.stage ≡ c.stage
unfolding parse_server_sdp note_ports
handshake_stage net c =
    do_rtsp_handshake-keeps net (λ s. s.stage ≡ c.stage) (λ s r h p. p) (λ s m p. p)
      (λ s ports p. p) c refl
