-- ===== src/Limelight/Machine.antt =====
-- The client as a machine of three phases, and that each call of it is a step of that machine.
use mathlib.Core.Path.{subst}
use moonparty.Base.Result.{ok, err, Ends}
use moonparty.Base.{Bool, true, false, ◌≡◌, ◌≢◌, refl, ap, sym, inl, inr}
use moonparty.Limelight.Phases.{Idle, Stranded, Running, Stays, start-Ends, start_running}
use moonparty.Limelight.Shape.{cleanup-Shape, cleanup-IsHungUp}
use moonparty.Limelight.Start.{cleanup, start, stop}
use moonparty.Limelight.{Client, System, panics, Try}

-- The abstract machine, and its calls.
pub data Phase : Type 0 where
  idle stranded running : Phase

pub data Action : Type 0 where
  start_with stop_with : System → Action

pub data IsOff : Phase → Type 0 where
  off_idle : IsOff idle
  off_stranded : IsOff stranded

-- The flag is whether no error is returned. A start that succeeds ends running, one that fails does
-- not, and may leave the client stranded; one of a running client is refused; a stop ends a running
-- client idle, and does nothing else.
pub data Step : Phase → Action → Bool → Phase → Type 0 where
  starts : {p : Phase} {sys : System} → IsOff p → Step p (start_with sys) true running
  fails : {p q : Phase} {sys : System} → IsOff p → IsOff q → Step p (start_with sys) false q
  refuses : {sys : System} → Step running (start_with sys) false running
  stops : {sys : System} → Step running (stop_with sys) true idle
  stays : {p : Phase} {sys : System} → IsOff p → Step p (stop_with sys) true p

-- Idle, the client holds no stream and no RTSP client, and its last RTSP client has closed every
-- connection that it opened; stranded, it holds no stream, but the RTSP client of the handshake,
-- which is the stage where it has stopped; running, it holds all four streams and the RTSP client.
-- An RTSP client that is held has at most the one connection open that it holds itself.
abbrev pub Represents : Phase → Client → Type 0
Represents idle c = Idle c
Represents stranded c = Stranded c
Represents running c = Running c

unfoldable pub act : Action → Client → Client
act (start_with sys) c = (start sys c).0
act (stop_with sys) c = stop sys c

abbrev succeeded : Try Unit → Bool
succeeded (ok u) = true
succeeded (err e) = false

abbrev pub succeeds : Action → Client → Bool
succeeds (start_with sys) c = succeeded (start sys c).1
succeeds (stop_with sys) c = true

-- The call ends as it should, by no panic.
abbrev pub Returns : Action → Client → Type 0
Returns (start_with sys) c = (start sys c).1 ≢ err panics
Returns (stop_with sys) c = Unit

started :
    (p : Phase) (sys : System) (m : Client × Try Unit)
    → IsOff p
    → m.1 ≢ err panics
    → Ends Stays (λ s (u : Unit {0}). Running s) m
    → (q : Phase) × (Step p (start_with sys) (succeeded m.1) q × Represents q m.0)
started p sys (c, ok u) off n h = (running, (starts off, h))
started p sys (c, err e) off n (inl x) = absurd (n (ap err x))
started p sys (c, err e) off n (inr (inl h)) = (idle, (fails off off_idle, h))
started p sys (c, err e) off n (inr (inr h)) = (stranded, (fails off off_stranded, h))

stop_connected :
    (sys : System) (c : Client)
    → c.connected ≡ true
    → stop sys c ≡ record (cleanup sys.net c) { connected = false }
unfolding stop
stop_connected sys c n = rw n refl

-- A client that is running and is stopped holds nothing, and has closed every connection of its
-- RTSP client.
pub stop-Running : (sys : System) (c : Client) → Running c → Idle (stop sys c)
stop-Running sys c ((k, (v, (a, (i, n)))), (h, t)) =
    let (k', (v', (a', (i', n')))) = cleanup-Shape sys.net c (k, (v, (a, (i, n)))) in
    let hung = cleanup-IsHungUp sys.net c h t in
    subst Idle (sym (stop_connected sys c n)) (
      (k', (v', (a', (i', refl)))),
      record { no_rtsp = hung.no_rtsp; all_closed = hung.all_closed; tidy = hung.tidy },
    )

pub stop_idle : (sys : System) (c : Client) → c.connected ≡ false → stop sys c ≡ c
unfolding stop
stop_idle sys c n = rw n refl

-- Every call of Start or Stop that returns is a step of the machine of three phases, and takes a
-- client that stands for a phase to one that stands for the next. So a Start that returns no error
-- ends running, with all four streams and the RTSP client; one that returns an error leaves a client
-- that was not running without any stream, and one that was running as such. A Stop of a running
-- client leaves no stream, no RTSP client and none of the RTSP client's connections open; so does a
-- Start that fails in a stage behind the handshake; and a Stop of a client that is not running leaves
-- it in its phase. A Start of a client that a failed handshake has left drops that RTSP client, of
-- whose connections nothing is said from then on.
pub act-Represents :
    (p : Phase) (a : Action) (c : Client)
    → Represents p c
    → Returns a c
    → (q : Phase) × (Step p a (succeeds a c) q × Represents q (act a c))
unfolding act
act-Represents idle (start_with sys) c h n =
    started idle sys (start sys c) off_idle n (start-Ends sys c (inl h))
act-Represents idle (stop_with sys) c h n =
    (idle, (stays off_idle, rw (stop_idle sys c h.0.1.1.1.1) h))
act-Represents stranded (start_with sys) c h n =
    started stranded sys (start sys c) off_stranded n (start-Ends sys c (inr h))
act-Represents stranded (stop_with sys) c h n =
    (stranded, (stays off_stranded, rw (stop_idle sys c h.0.0.1.1.1.1) h))
act-Represents running (start_with sys) c h n = (
  running,
  subst
      (λ (m : Client × Try Unit).
        Step running (start_with sys) (succeeded m.1) running × Running m.0)
      (sym (start_running sys c h.0.1.1.1.1)) (refuses, h),
)
act-Represents running (stop_with sys) c h n = (idle, (stops, stop-Running sys c h))
