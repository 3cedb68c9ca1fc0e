-- ===== src/Limelight/Stages.antt =====
-- What the listener is told of the stages of a `Start`.
use mathlib.Core.List.{append-nil, append_assoc}
use moonparty.Base.All.{All, append-All}
use moonparty.Base.{Bool, true, false, List, [], ◌∷◌, ◌++◌, ◌≡◌, refl, ap, sym, ◌∙◌, if◌then◌else◌}
use moonparty.Limelight.Start.{
  cancel_context, close_input, stop_audio, stop_video, stop_control, tear_down, cleanup,
}
use moonparty.Limelight.{
  Client, Notice, starting, complete, failed, connection_started, cancelled, input_closed,
  audio_stopped, video_stopped, control_stopped, rtsp_closed, Stage,
}
use moonparty.Rtsp.{Network}

-- What a shutdown tells, which is nothing of a stage.
pub data IsQuiet : Notice → Type 0 where
  quiet_context : IsQuiet cancelled
  quiet_input : IsQuiet input_closed
  quiet_audio : IsQuiet audio_stopped
  quiet_video : IsQuiet video_stopped
  quiet_control : IsQuiet control_stopped
  quiet_rtsp : IsQuiet rtsp_closed

-- How a run over the stages ends, as the caller sees it.
pub data Ending : Type 0 where
  succeeding failing panicking : Ending

-- The notices of a run over some stages, by how it ends: each stage starts and completes before the
-- next one starts, up to the end, where the connection has started; or to a stage that fails, of
-- which that is told, and after which there is only a shutdown; or to one that a panic leaves.
pub data IsStaged : List Stage → List Notice → Ending → Type 0 where
  reached : IsStaged [] (connection_started ∷ []) succeeding
  passed :
      {s : Stage} {ss : List Stage} {ns : List Notice} {e : Ending}
      → IsStaged ss ns e
      → IsStaged (s ∷ ss) (starting s ∷ complete s ∷ ns) e
  halted :
      {s : Stage} {ss : List Stage} {ns : List Notice}
      → All IsQuiet ns
      → IsStaged (s ∷ ss) (starting s ∷ failed s ∷ ns) failing
  left : {s : Stage} {ss : List Stage} → IsStaged (s ∷ ss) (starting s ∷ []) panicking

-- The client has told some more, and only of a shutdown.
unfoldable pub Quietly : Client → Client → Type 0
Quietly c c' = (ns : List Notice) × ((c'.notices ≡ c.notices ++ ns) × All IsQuiet ns)

Quietly-trans : (a b c : Client) → Quietly a b → Quietly b c → Quietly a c
unfolding Quietly
Quietly-trans a b c (ns, (e, q)) (ms, (f, r)) = (
  ns ++ ms,
  (
    f ∙ ap (λ (x : List Notice). x ++ ms) e ∙ append_assoc a.notices ns ms,
    append-All IsQuiet ns ms q r,
  ),
)

-- A block of `cleanup`: it runs or it does not.
Quietly-if :
    (b : Bool) (n : Notice) (c c' : Client)
    → IsQuiet n
    → c'.notices ≡ c.notices ++ n ∷ []
    → Quietly c (if b then c' else c)
unfolding Quietly
Quietly-if true n c c' q e = (n ∷ [], (e, (q, tt)))
Quietly-if false n c c' q e = ([], (sym (append-nil c.notices), tt))

pub cleanup-Quietly : (net : Network) (c : Client) → Quietly c (cleanup net c)
unfolding cleanup tear_down
cleanup-Quietly net c =
    let c1 : Client = cancel_context c in
    let c2 : Client = close_input c1 in
    let c3 : Client = stop_audio c2 in
    let c4 : Client = stop_video c3 in
    let c5 : Client = stop_control c4 in
    Quietly-trans c c5 _
      (Quietly-trans c c4 c5
        (Quietly-trans c c3 c4
          (Quietly-trans c c2 c3
            (Quietly-trans c c1 c2 (Quietly-if c.has_context cancelled c _ quiet_context refl)
              (Quietly-if c1.has_input input_closed c1 _ quiet_input refl))
            (Quietly-if c2.has_audio audio_stopped c2 _ quiet_audio refl))
          (Quietly-if c3.has_video video_stopped c3 _ quiet_video refl))
        (Quietly-if c4.has_control control_stopped c4 _ quiet_control refl))
      (Quietly-if c5.has_rtsp rtsp_closed c5 _ quiet_rtsp refl)
