-- ===== src/Session.antt =====
-- internal/session/session.go: the participants of one streaming session.
-- The peer objects stand in a store, because the map `peers`, the array `playerSlot` and the
-- field `host` point to the same objects. A pointer is a number; uuids and times are numbers that
-- the caller supplies. Each method runs under the session's mutex, so it is one step.
pub mod Query
pub mod Invariant
pub mod Preservation
pub mod History
pub mod Slots
pub mod Roles
use Prim.Native.String.{String}
use moonparty.Base.{
  ℕ, zero, suc, ◌+◌, Bool, true, false, ◌&&◌, Option, none, some, List, [], ◌∷◌, ltb, if◌then◌else◌,
  ℤ, pos, negsuc, ltb_ℤ,
}
use moonparty.Base.Assoc.{lookup, insert, delete, update}

pub data Role : Type 0 where
  host player spectator : Role

pub data InputType : Type 0 where
  keyboard mouse mouse_relative gamepad touch : InputType

pub data SessionError : Type 0 where
  already_has_host peer_not_found no_player_slots cannot_demote_host : SessionError

pub record Peer : Type 0 where
  pub id : ℕ
  pub name : String
  pub role : Role
  pub player_slot : ℤ
  pub joined_at : ℕ
  pub keyboard_enabled : Bool

pub record InputPacket : Type 0 where
  pub type : InputType
  pub peer_id : ℕ
  pub player_slot : ℤ
  pub payload : List ℕ

-- A goroutine started for a callback, with the object it was given.
pub data Notice : Type 0 where
  peer_joined peer_left : ℕ → Notice
  role_changed : ℕ → Role → Notice

pub record Session : Type 0 where
  pub id : ℕ
  pub created_at : ℕ
  pub peers : List (ℕ × ℕ)
  pub player_slot : ℕ → Option ℕ
  pub host : Option ℕ
  pub has_cancel_func : Bool
  pub cancelled : ℕ
  pub input_chan : List InputPacket
  pub input_closed : Bool
  pub max_players : ℤ
  pub on_peer_joined : Bool
  pub on_peer_left : Bool
  pub on_role_changed : Bool
  pub notices : List Notice
  pub store : ℕ → Peer
  pub next_ptr : ℕ

-- What the store holds where nothing has been allocated.
abbrev pub zero_peer : Peer
zero_peer = record {
  id = 0;
  name = "";
  role = spectator;
  player_slot = pos 0;
  joined_at = 0;
  keyboard_enabled = false;
}

abbrev pub input_capacity : ℕ
input_capacity = 256

unfoldable pub new_session : ℕ → ℕ → ℤ → Session
new_session id now max_players = record {
  id = id;
  created_at = now;
  peers = [];
  player_slot = λ i. none;
  host = none;
  has_cancel_func = false;
  cancelled = 0;
  input_chan = [];
  input_closed = false;
  max_players = max_players;
  on_peer_joined = false;
  on_peer_left = false;
  on_role_changed = false;
  notices = [];
  store = λ p. zero_peer;
  next_ptr = 0;
}

abbrev pub notify : Bool → Notice → List Notice → List Notice
notify set n ns = if set then n ∷ ns else ns

-- `s.peers[peer.ID] = peer`, for an object just allocated.
abbrev pub enter : Session → Peer → Session
enter s peer = record s {
  peers = insert peer.id s.next_ptr s.peers;
  store = update s.store s.next_ptr peer;
  next_ptr = suc s.next_ptr;
  notices = notify s.on_peer_joined (peer_joined s.next_ptr) s.notices;
}

unfoldable pub add_host : Session → ℕ → ℕ → String → Session × Option ℕ × Option SessionError
unfolding insert update
add_host s uuid now name = elim s.host [
  | some _ ↦ (s, none, some already_has_host)
  | none ↦ (
    record (enter s peer) {
      player_slot = update s.player_slot 0 (some s.next_ptr);
      host = some s.next_ptr;
    },
    some s.next_ptr,
    none,
  )
]
  where
    peer : Peer
    peer = record {
      id = uuid;
      name = name;
      role = host;
      player_slot = pos 0;
      joined_at = now;
      keyboard_enabled = true;
    }

unfoldable pub add_spectator : Session → ℕ → ℕ → String → Session × Option ℕ × Option SessionError
unfolding insert update
add_spectator s uuid now name = (enter s peer, some s.next_ptr, none)
  where
    peer : Peer
    peer = record {
      id = uuid;
      name = name;
      role = spectator;
      player_slot = negsuc 0;
      joined_at = now;
      keyboard_enabled = false;
    }

-- The search of `PromoteToPlayer` from slot `i` on; the first argument counts the rounds left.
unfoldable pub find_slot : ℕ → ℕ → (ℕ → Option ℕ) → ℤ → ℤ
find_slot zero i slots max_players = negsuc 0
find_slot (suc n) i slots max_players =
    let rest = find_slot n (i + 1) slots max_players in
    if ltb_ℤ (pos i) max_players && ltb i 4
    then elim (slots i) [ none ↦ pos i | some _ ↦ rest ]
    else negsuc 0

-- The search starts at 1 and its condition fails at 4.
unfoldable pub available_slot : Session → ℤ
unfolding find_slot
available_slot s = find_slot 3 1 s.player_slot s.max_players

abbrev pub is_player : Role → Bool
is_player spectator = false
is_player _ = true

abbrev pub is_host : Role → Bool
is_host host = true
is_host _ = false

abbrev pub is_spectator : Role → Bool
is_spectator spectator = true
is_spectator _ = false

abbrev pub seat : Session → ℕ → ℕ → Session
seat s p i = record s {
  player_slot = update s.player_slot i (some p);
  store = update s.store p (record (s.store p) { role = player; player_slot = pos i });
  notices = notify s.on_role_changed (role_changed p player) s.notices;
}

unfoldable pub promote_to_player : Session → ℕ → Session × ℤ × Option SessionError
unfolding lookup update available_slot
promote_to_player s id = elim (lookup id s.peers) [
  | none ↦ (s, negsuc 0, some peer_not_found)
  | some p ↦
      if is_player (s.store p).role
      then (s, (s.store p).player_slot, none)
      else elim (available_slot s) [
        | negsuc _ ↦ (s, negsuc 0, some no_player_slots)
        | pos i ↦ (seat s p i, pos i, none)
      ]
]

-- `if slot >= 0 && slot < 4 { s.playerSlot[slot] = nil }`.
unfoldable pub free_slot : (ℕ → Option ℕ) → ℤ → ℕ → Option ℕ
unfolding update
free_slot slots (pos i) = if ltb i 4 then update slots i none else slots
free_slot slots (negsuc n) = slots

abbrev pub unseat : Session → ℕ → Session
unseat s p = record s {
  player_slot = free_slot s.player_slot (s.store p).player_slot;
  store =
      update s.store p
        (record (s.store p) { role = spectator; player_slot = negsuc 0; keyboard_enabled = false });
  notices = notify s.on_role_changed (role_changed p spectator) s.notices;
}

unfoldable pub demote_to_spectator : Session → ℕ → Session × Option SessionError
unfolding lookup update free_slot
demote_to_spectator s id = elim (lookup id s.peers) [
  | none ↦ (s, some peer_not_found)
  | some p ↦ elim (s.store p).role [
    | host ↦ (s, some cannot_demote_host)
    | spectator ↦ (s, none)
    | player ↦ (unseat s p, none)
  ]
]

unfoldable pub remove_peer : Session → ℕ → Session
unfolding lookup delete free_slot
remove_peer s id = elim (lookup id s.peers) [
  | none ↦ s
  | some p ↦ record s {
    player_slot = free_slot s.player_slot (s.store p).player_slot;
    peers = delete id s.peers;
    notices = notify s.on_peer_left (peer_left p) s.notices;
  }
]

unfoldable pub set_keyboard_enabled : Session → ℕ → Bool → Session
unfolding lookup update
set_keyboard_enabled s id enabled = elim (lookup id s.peers) [
  | none ↦ s
  | some p ↦
      if is_host (s.store p).role
      then s
      else record s { store = update s.store p (record (s.store p) { keyboard_enabled = enabled }) }
]
