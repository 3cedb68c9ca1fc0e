-- ===== src/Manager.antt =====
-- internal/session/manager.go: the sessions of the server, of which one at most is active.
-- Session objects stand in a store, because `sessions` and `active` point to the same objects, and
-- because a client's goroutine keeps its pointer. Each method runs under the manager's mutex.
pub mod Invariant
use moonparty.Base.{
  ℕ, suc, Bool, true, false, ◌||◌, Option, none, some, List, [], ◌∷◌, map, if◌then◌else◌, ℤ, pos,
  ltb_ℤ, leb, ◌==◌, pos_part, neg_part,
}
use moonparty.Base.Assoc.{lookup, insert, delete, update}
use moonparty.Session.{Session, SessionError, new_session, add_host}
use moonparty.Session.Query.{close}

pub data ManagerError : Type 0 where
  already_active : ManagerError
  session_error : SessionError → ManagerError

pub record Manager : Type 0 where
  pub sessions : List (ℕ × ℕ)
  pub active : Option ℕ
  pub max_players : ℤ
  pub store : ℕ → Session
  pub next_ptr : ℕ

-- `maxPlayers <= 0 || maxPlayers > 4` selects 4.
unfoldable pub new_manager : ℤ → Manager
new_manager max_players = record {
  sessions = [];
  active = none;
  max_players =
      if ltb_ℤ max_players (pos 1) || ltb_ℤ (pos 4) max_players then pos 4 else max_players;
  store = λ p. new_session 0 0 (pos 0);
  next_ptr = 0;
}

-- `m.sessions[sess.ID] = sess; m.active = sess`, for the session object `sess` just allocated.
abbrev pub register : Manager → Session → Manager
register m sess = record m {
  sessions = insert sess.id m.next_ptr m.sessions;
  active = some m.next_ptr;
  store = update m.store m.next_ptr sess;
  next_ptr = suc m.next_ptr;
}

-- The arguments are the two uuids that the call draws, the session's and the host's, and the time.
unfoldable pub create_session : Manager → ℕ → ℕ → ℕ → Manager × Option ℕ × Option ManagerError
unfolding insert delete update new_session add_host
create_session m uuid host_uuid now = elim m.active [
  | some _ ↦ (m, none, some already_active)
  | none ↦
      let (sess, _, err) = add_host (new_session uuid now m.max_players) host_uuid now "Host" in
      elim err [
        | none ↦ (register m sess, some m.next_ptr, none)
        | some e ↦ (
          record (register m sess) {
            sessions = delete uuid (insert uuid m.next_ptr m.sessions);
            active = none;
          },
          none,
          some (session_error e),
        )
      ]
]

-- `none` is the nil pointer.
unfoldable pub get_session : Manager → ℕ → Option ℕ
unfolding lookup
get_session m id = lookup id m.sessions

unfoldable pub get_active_session : Manager → Option ℕ
get_active_session m = m.active

unfoldable pub has_active_session : Manager → Bool
has_active_session m = elim m.active [ none ↦ false | some _ ↦ true ]

abbrev deactivate : Manager → ℕ → Option ℕ
deactivate m id = elim m.active [
  | none ↦ none
  | some a ↦ if (m.store a).id == id then none else some a
]

-- `none` is the panic of closing a session twice.
unfoldable pub close_session : Manager → ℕ → Option Manager
unfolding lookup delete update close
close_session m id = elim (lookup id m.sessions) [
  | none ↦ some m
  | some p ↦ elim (close (m.store p)) [
    | none ↦ none
    | some sess ↦
        let m' : Manager = record m {
          store = update m.store p sess;
          sessions = delete id m.sessions;
        } in
        some (record m' { active = deactivate m' id })
  ]
]

-- The loop of `CloseAll` over the map.
unfoldable pub close_each : (ℕ → Session) → List (ℕ × ℕ) → Option (ℕ → Session)
unfolding update close
close_each store [] = some store
close_each store ((_, p) ∷ rest) = elim (close (store p)) [
  | none ↦ none
  | some sess ↦ close_each (update store p sess) rest
]

unfoldable pub close_all : Manager → Option Manager
unfolding close_each
close_all m = elim (close_each m.store m.sessions) [
  | none ↦ none
  | some store ↦ some (record m { store = store; sessions = []; active = none })
]

-- Go visits a map in no fixed order; this is one of the orders.
unfoldable pub list_sessions : Manager → List ℕ
list_sessions m = map (λ e. e.1) m.sessions
