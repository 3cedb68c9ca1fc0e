-- ===== src/Manager/Invariant.antt =====
-- The well-formedness of the manager, and that its methods keep it and do not panic.
use moonparty.Base.{
  ℕ, ◌<◌, ◌≡◌, ◌≢◌, refl, inl, inr, false, none, some, true, if◌then◌else◌, ◌+◌, arith, ℤ,
  Option-cases, Bool-cases, ◌==◌,
}
use moonparty.Base.Assoc.{lookup, delete, update, lookup-insert, lookup-delete}
use moonparty.Session.{Session, new_session}
use moonparty.Session.Invariant.{Inv, new_session-Inv, add_host-Inv}
use moonparty.Session.History.{Inv-SameRoster}
use moonparty.Manager.{
  Manager, new_manager, create_session, close_session, register, already_active,
}

-- Each session object is well formed and has a host. The map lists the active session only, under
-- its own identifier, and its input channel is open.
pub record IsValid (m : Manager) : Type 0 where
  pub listed :
      (k p : ℕ)
      → lookup k m.sessions ≡ some p
      → (p < m.next_ptr)
        × ((m.store p).id ≡ k)
        × ((m.store p).input_closed ≡ false)
        × (m.active ≡ some p)
  pub active_listed : (a : ℕ) → m.active ≡ some a → lookup (m.store a).id m.sessions ≡ some a
  pub members : (p : ℕ) → p < m.next_ptr → Inv (m.store p)
  pub hosted : (p : ℕ) → p < m.next_ptr → (h : ℕ) × ((m.store p).host ≡ some h)

pub new_manager-IsValid : (n : ℤ) → IsValid (new_manager n)
unfolding new_manager lookup
new_manager-IsValid n = record {
  listed = λ k p h. ground arith;
  active_listed = λ a h. ground arith;
  members = λ p h. absurd (omega arith);
  hosted = λ p h. absurd (omega arith);
}

-- What every method of a session but `close` leaves alone.
abbrev pub IsSameSession : Session → Session → Type 0
IsSameSession s t = (t.id ≡ s.id) × (t.input_closed ≡ s.input_closed) × (t.host ≡ s.host)

-- A session object after `close`.
abbrev pub shut : Session → Session
shut s = record s {
  cancelled = if s.has_cancel_func then s.cancelled + 1 else s.cancelled;
  input_closed = true;
}

shut-Inv : (s : Session) → Inv s → Inv (shut s)
shut-Inv s v = Inv-SameRoster s (shut s) (refl, refl, refl, refl, refl, refl) v

module _ (m : Manager) (v : IsValid m) where
  pub update-IsValid :
      (a : ℕ) (t : Session)
      → IsSameSession (m.store a) t
      → Inv t
      → IsValid (record m { store = update m.store a t })
  unfolding update
  update-IsValid a t same inv = record {
    listed = λ k p h. ground (arith, v.listed k p);
    active_listed = λ b h. ground (arith, v.active_listed b);
    members = λ p h. elim (Bool-cases (a == p)) [ inl e ↦ rw e inv | inr e ↦ rw e (v.members p h) ];
    hosted = λ p h. let (q, e) = v.hosted p h in (q, ground arith);
  }

  register-IsValid :
      (sess : Session) (h₀ : ℕ)
      → m.active ≡ none
      → sess.input_closed ≡ false
      → sess.host ≡ some h₀
      → Inv sess
      → IsValid (register m sess)
  unfolding update
  register-IsValid sess h₀ idle open_chan hosted inv = record {
    listed = λ k p h. ground (arith, lookup-insert sess.id k m.next_ptr m.sessions, v.listed k p);
    active_listed = λ a h. ground (arith, lookup-insert sess.id sess.id m.next_ptr m.sessions);
    members = λ p h. elim (Bool-cases (m.next_ptr == p)) [
      | inl e ↦ rw e inv
      | inr e ↦ rw e (v.members p (ground arith))
    ];
    hosted = λ p h. elim (Bool-cases (m.next_ptr == p)) [
      | inl e ↦ rw e (h₀, hosted)
      | inr e ↦ rw e (v.hosted p (ground arith))
    ];
  }

  -- In a well-formed manager a session is created exactly when none is active; it becomes the active
  -- one, and the manager stays well formed.
  pub create_session_lem :
      (uuid host_uuid now : ℕ)
      → IsValid (create_session m uuid host_uuid now).0
        × ((m.active ≡ none)
            → ((create_session m uuid host_uuid now).0.active ≡ some m.next_ptr)
              × ((create_session m uuid host_uuid now).1 ≡ some m.next_ptr)
              × ((create_session m uuid host_uuid now).2 ≡ none))
        × ((a : ℕ)
            → m.active ≡ some a
            → create_session m uuid host_uuid now ≡ (m, none, some already_active))
  unfolding create_session
  create_session_lem uuid host_uuid now = (
    elim (Option-cases m.active) [
      | inr (a, e) ↦ rw (e, create_session) v
      | inl e ↦
          rw (e, create_session)
            (register-IsValid _ 0 e refl refl (
              add_host-Inv (new_session uuid now m.max_players) host_uuid now "Host"
                (new_session-Inv uuid now m.max_players) (λ p h. absurd (omega arith))))
    ],
    λ e. rw (e, create_session) (refl, refl, refl),
    λ a e. ground arith,
  )

  -- The manager after closing the session object `p` of the identifier `id`.
  abbrev pub closed : ℕ → ℕ → Manager
  closed id p = record m {
    store = update m.store p (shut (m.store p));
    sessions = delete id m.sessions;
    active = none;
  }

  closed-IsValid : (id p : ℕ) → lookup id m.sessions ≡ some p → IsValid (closed id p)
  unfolding update
  closed-IsValid id p here = record {
    listed = λ k q h. ground (arith, lookup-delete id k m.sessions, v.listed k q, v.listed id p);
    active_listed = λ a h. ground arith;
    members = λ q h. elim (Bool-cases (p == q)) [
      | inl e ↦ rw e (shut-Inv (m.store p) (v.members p (v.listed id p here).0))
      | inr e ↦ rw e (v.members q h)
    ];
    hosted = λ q h. let (x, e) = v.hosted q h in (x, ground arith);
  }

  pub close_session_listed :
      (id p : ℕ) → lookup id m.sessions ≡ some p → close_session m id ≡ some (closed id p)
  unfolding close_session
  close_session_listed id p here = ground (arith, v.listed id p)

  -- In a well-formed manager closing a session does not panic, and keeps the manager well formed.
  -- Afterwards no session is listed under the identifier, and the active session is another.
  pub close_session_lem :
      (id : ℕ)
      → (t : Manager) × (close_session m id ≡ some t)
        × IsValid t
        × (lookup id t.sessions ≡ none)
        × ((a : ℕ) → t.active ≡ some a → (t.store a).id ≢ id)
  unfolding close_session
  close_session_lem id = elim (Option-cases (lookup id m.sessions)) [
    | inl e ↦ (m, rw (e, close_session), v, e, λ a h. ground (arith, v.active_listed a))
    | inr (p, e) ↦ (
      closed id p,
      close_session_listed id p e,
      closed-IsValid id p e,
      ground (arith, lookup-delete id id m.sessions),
      λ a h. ground arith,
    )
  ]
