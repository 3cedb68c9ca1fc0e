-- ===== src/Moonlight/Life.antt =====
-- The connection that the process has, over calls that start, stop and use it.
use mathlib.Core.Path.{subst}
use moonparty.Base.All.{All, append-All}
use moonparty.Base.Result.{ok, err, Ends}
use moonparty.Base.{
  Bool, true, false, Option, none, some, List, [], ◌∷◌, ◌≡◌, ◌≢◌, inl, inr, refl, sym, arith,
}
use moonparty.Input.{Stream, Packet, returned, blocked}
use moonparty.Limelight.Api.{Reply, not_connected, called}
use moonparty.Limelight.Machine.{stop-Running}
use moonparty.Limelight.Phases.{Idle, Off, Running, Stays, start-Ends}
use moonparty.Limelight.Start.{start, stop}
use moonparty.Limelight.{Client, System, Try, panics, new_client}
use moonparty.Moonlight.Events.{
  Event, ignored, bad_slot, asks, call_of, perform, event_of, send_input-perform,
}
use moonparty.Moonlight.Play.{send_input}
use moonparty.Moonlight.{
  Adapter, Target, Handling, handled, hangs, panicked, stop_active, settle, start_connection,
  stop_connection, settled, through,
}
use moonparty.Rtsp.Connections.{new_client-IsTidy, IsTidy-closed}
use moonparty.Session.{InputPacket}

abbrev AllRun : Option Client → Type 0
AllRun none = Unit
AllRun (some c) = Running c

abbrev is_some : Option Client → Bool
is_some none = false
is_some (some c) = true

-- The active client is connected, the context is alive while there is one, and the clients that
-- were given up hold no stream, and no RTSP client with an open connection, unless it is that of a
-- failed handshake.
pub record IsSound (a : Adapter) : Type 0 where
  pub runs : AllRun a.active_client
  pub alive : a.live ≡ is_some a.active_client
  pub given_up : All Off a.retired

new_client-Idle : (t : Target) → Idle (new_client t.config t.address t.app_version)
unfolding new_client
new_client-Idle t = (
  (refl, (refl, (refl, (refl, refl)))),
  record {
    no_rtsp = refl;
    all_closed =
        IsTidy-closed _ (new_client-IsTidy [] _) (unfold moonparty.Rtsp.new_client in refl);
    tidy = new_client-IsTidy [] _;
  },
)

stop_active_lem :
    (sys : System) (a : Adapter) (o : Option Client)
    → a.active_client ≡ o
    → AllRun o
    → All Off a.retired
    → ((stop_active sys a).active_client ≡ none)
      × ((stop_active sys a).live ≡ a.live)
      × All Off (stop_active sys a).retired
unfolding stop_active
stop_active_lem sys a none e h old = rw (e, stop_active) (e, refl, old)
stop_active_lem sys a (some c) e r old =
    rw (e, stop_active)
      (refl, refl, append-All Off a.retired (stop sys c ∷ []) old (inl (stop-Running sys c r), tt))

settle-IsSound :
    (a : Adapter) (m : Client × Try Unit)
    → All Off a.retired
    → (settle a m).1 ≢ err panics
    → Ends Stays (λ s (u : Unit {0}). Running s) m
    → IsSound (settle a m).0
unfolding settle
settle-IsSound a (c, ok u) old n r = record { runs = r; alive = refl; given_up = old }
settle-IsSound a (c, err panics) old n h = absurd (n refl)
settle-IsSound a (c, err e) old n (inl p) = absurd (ground arith)
settle-IsSound a (c, err e) old n (inr i) = record {
  runs = tt;
  alive = refl;
  given_up = append-All Off a.retired (c ∷ []) old (i, tt);
}

start_connection-IsSound :
    (sys : System) (t : Target) (a : Adapter)
    → IsSound a
    → (start_connection sys t a).1 ≢ err panics
    → IsSound (start_connection sys t a).0
unfolding start_connection
start_connection-IsSound sys t a h n =
    settle-IsSound (stop_active sys a) (start sys (new_client t.config t.address t.app_version))
      (stop_active_lem sys a a.active_client refl h.runs h.given_up).2 n
      (start-Ends sys _ (inl (new_client-Idle t)))

stop_connection-IsSound : (sys : System) (a : Adapter) → IsSound a → IsSound (stop_connection sys a)
unfolding stop_connection
stop_connection-IsSound sys a h =
    let (gone, off, old) =
      stop_active_lem sys (record a { live = false }) a.active_client refl h.runs h.given_up in
    record { runs = rw gone tt; alive = rw (gone, off) refl; given_up = old }

-- A handling that comes back has changed the input stream at most.
abbrev OnlyInput : Adapter → Handling → Type 0
OnlyInput a (handled b sent) = (s : Stream) × (b ≡ record a { input = s })
OnlyInput a (hangs sent) = Unit
OnlyInput a panicked = Unit

settled-OnlyInput : (a : Adapter) (r : Reply) → OnlyInput a (settled a r)
settled-OnlyInput a not_connected = (a.input, refl)
settled-OnlyInput a (called (returned s sent error)) = (s, refl)
settled-OnlyInput a (called (blocked sent)) = tt

through-OnlyInput :
    (a : Adapter) (call : Client → Stream → Reply) (o : Option Client)
    → OnlyInput a (through a call o)
through-OnlyInput a call none = (a.input, refl)
through-OnlyInput a call (some c) = settled-OnlyInput a (call c a.input)

perform-OnlyInput : (a : Adapter) (succeeds : Bool) (e : Event) → OnlyInput a (perform a succeeds e)
unfolding perform
perform-OnlyInput a succeeds ignored = (a.input, refl)
perform-OnlyInput a succeeds bad_slot = tt
perform-OnlyInput a succeeds (asks r) = through-OnlyInput a (call_of succeeds r) a.active_client

send_input-OnlyInput :
    (a : Adapter) (succeeds : Bool) (x : InputPacket) → OnlyInput a (send_input a succeeds x)
send_input-OnlyInput a succeeds x =
    subst (OnlyInput a) (sym (send_input-perform a succeeds x))
      (perform-OnlyInput a succeeds (event_of x))

-- A call that comes back: a start that does not panic, a stop, or an input packet.
pub data Call (a : Adapter) : Adapter → Type 0 where
  starts :
      (sys : System) (t : Target)
      → (start_connection sys t a).1 ≢ err panics
      → Call a (start_connection sys t a).0
  stops : (sys : System) → Call a (stop_connection sys a)
  sends :
      (succeeds : Bool) (x : InputPacket) {b : Adapter} {sent : List Packet}
      → send_input a succeeds x ≡ handled b sent
      → Call a b

pub data Reach (a : Adapter) : Adapter → Type 0 where
  here : Reach a a
  next : {b c : Adapter} → Reach a b → Call b c → Reach a c

Call-IsSound : {a b : Adapter} → IsSound a → Call a b → IsSound b
Call-IsSound {a = a} h (starts sys t n) = start_connection-IsSound sys t a h n
Call-IsSound {a = a} h (stops sys) = stop_connection-IsSound sys a h
Call-IsSound {a = a} h (sends succeeds x e) =
    let (s, same) = subst (OnlyInput a) e (send_input-OnlyInput a succeeds x) in
    rw same (record { runs = h.runs; alive = h.alive; given_up = h.given_up })

-- A process that has made no connection yet.
abbrev pub fresh : Stream → Adapter
fresh s = record { active_client = none; input = s; live = false; retired = [] }

-- After any calls that come back, of StartConnection, of StopConnection and of SendInput, the
-- active client is connected with its RTSP client and all four streams, if there is one; the
-- context is alive exactly then; and every client that was given up holds no stream, and either no
-- RTSP client, with every connection closed that its last one opened, or the RTSP client of the
-- handshake, in whose stage it has stopped.
pub Reach-IsSound : (s : Stream) (a : Adapter) → Reach (fresh s) a → IsSound a
Reach-IsSound s a here = record { runs = tt; alive = refl; given_up = tt }
Reach-IsSound s a (next {b = b} r call) = Call-IsSound (Reach-IsSound s b r) call
