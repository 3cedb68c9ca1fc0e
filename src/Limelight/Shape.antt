-- ===== src/Limelight/Shape.antt =====
-- Which streams the client holds, and what `cleanup` makes of that.
use moonparty.Base.{
  Bool, true, false, inl, inr, ◌≡◌, refl, sym, ◌∙◌, arith, if◌then◌else◌, Option-cases,
}
use mathlib.Core.Path.{subst}
use moonparty.Limelight.Start.{
  cancel_context, close_input, stop_audio, stop_video, stop_control, tear_down, cleanup, start_host,
  start_fresh, start,
}
use moonparty.Base.Result.{err}
use moonparty.Base.Text.{Bytes, codes}
use moonparty.Limelight.Address.{split_host_port}
use moonparty.Limelight.{Client, System, already_connected}
use moonparty.Rtsp.Connections.{
  opened, closed, IsTidy, close-IsTidy, close-has_conn, do_teardown-IsTidy, IsTidy-closed,
}
use moonparty.Rtsp.Requests.{do_teardown}
use moonparty.Rtsp.{Network, close}

-- The control, video, audio and input streams that are there, and whether the client is connected.
abbrev pub Shape : Bool → Bool → Bool → Bool → Bool → Client → Type 0
Shape control video audio input connected c =
    (c.has_control ≡ control)
    × ((c.has_video ≡ video)
        × ((c.has_audio ≡ audio) × ((c.has_input ≡ input) × (c.connected ≡ connected))))

module _ {a b d e k : Bool} where
  pub cancel_context-Shape : (c : Client) → Shape a b d e k c → Shape a b d e k (cancel_context c)
  cancel_context-Shape c s =
      (ground arith, (ground arith, (ground arith, (ground arith, ground arith))))

  pub close_input-Shape : (c : Client) → Shape a b d e k c → Shape a b d false k (close_input c)
  close_input-Shape c s =
      (ground arith, (ground arith, (ground arith, (ground arith, ground arith))))

  pub stop_audio-Shape : (c : Client) → Shape a b d e k c → Shape a b false e k (stop_audio c)
  stop_audio-Shape c s =
      (ground arith, (ground arith, (ground arith, (ground arith, ground arith))))

  pub stop_video-Shape : (c : Client) → Shape a b d e k c → Shape a false d e k (stop_video c)
  stop_video-Shape c s =
      (ground arith, (ground arith, (ground arith, (ground arith, ground arith))))

  pub stop_control-Shape : (c : Client) → Shape a b d e k c → Shape false b d e k (stop_control c)
  stop_control-Shape c s =
      (ground arith, (ground arith, (ground arith, (ground arith, ground arith))))

  pub tear_down-Shape :
      (net : Network) (c : Client) → Shape a b d e k c → Shape a b d e k (tear_down net c)
  unfolding tear_down
  tear_down-Shape net c s =
      (ground arith, (ground arith, (ground arith, (ground arith, ground arith))))

-- Nothing but the flag of the connection is left by `cleanup`.
pub cleanup-Shape :
    {a b d e k : Bool} (net : Network) (c : Client)
    → Shape a b d e k c
    → Shape false false false false k (cleanup net c)
unfolding cleanup
cleanup-Shape net c s = tear_down-Shape net _ (
    stop_control-Shape _
      (stop_video-Shape _ (stop_audio-Shape _ (close_input-Shape _ (cancel_context-Shape c s)))))

-- No RTSP client, and none of the connections it ever opened still open.
pub record IsHungUp (c : Client) : Type 0 where
  pub no_rtsp : c.has_rtsp ≡ false
  pub all_closed : opened c.rtsp.events ≡ closed c.rtsp.events
  pub tidy : IsTidy c.rtsp

pub tear_down-IsHungUp :
    (net : Network) (c : Client) → c.has_rtsp ≡ true → IsTidy c.rtsp → IsHungUp (tear_down net c)
unfolding tear_down
tear_down-IsHungUp net c h t =
    let torn = (do_teardown net c.rtsp).0 in
    let tidy = close-IsTidy torn (do_teardown-IsTidy net c.rtsp t) in
    rw h (record {
      no_rtsp = refl;
      all_closed = IsTidy-closed (close torn) tidy (close-has_conn torn);
      tidy = tidy;
    })

-- Every block before the last leaves the RTSP client alone.
pub cleanup-IsHungUp :
    (net : Network) (c : Client) → c.has_rtsp ≡ true → IsTidy c.rtsp → IsHungUp (cleanup net c)
unfolding cleanup
cleanup-IsHungUp net c h t =
    let torn : Client = stop_control (stop_video (stop_audio (close_input (cancel_context c)))) in
    let same : torn.rtsp ≡ c.rtsp = ground arith in
    tear_down-IsHungUp net torn ((ground arith) ∙ h) (subst (λ r. IsTidy r) (sym same) t)

if_not : {A : Type 0} (b : Bool) (x y : A) → b ≡ false → (if b then x else y) ≡ y
if_not b x y e = rw e refl

start_fresh_host :
    (sys : System) (c : Client)
    → (host : Bytes) × ((port : Bytes) × (start_fresh sys c ≡ start_host sys host port c))
unfolding start_fresh
start_fresh_host sys c = elim (Option-cases (split_host_port c.address)) [
  | inl e ↦ (c.address, (codes "47989", rw (e, start_fresh) refl))
  | inr ((host, port), e) ↦ (host, (port, rw (e, start_fresh) refl))
]

-- A client that is not connected gets a context, and starts with some host and port.
pub start_idle :
    (sys : System) (c : Client)
    → c.connected ≡ false
    → (host : Bytes) × ((port : Bytes) × (start sys c
          ≡ start_host sys host port (record c { has_context = true })))
unfolding start
start_idle sys c n =
    let opened : Client = record c { has_context = true } in
    let (host, (port, e)) = start_fresh_host sys opened in
    (host, (port, if_not c.connected (c, err already_connected) (start_fresh sys opened) n ∙ e))
