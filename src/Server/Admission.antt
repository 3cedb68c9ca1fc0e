-- ===== src/Server/Admission.antt =====
-- Whom a new WebSocket connection becomes.
use Prim.Native.String.{String}
use moonparty.Base.{ℕ, ◌≡◌, ◌∙◌, sym, ap, inl, inr, false, some, none, arith, negsuc, Option-cases}
use moonparty.Base.Assoc.{lookup, update, lookup-insert}
use moonparty.Session.{spectator}
use moonparty.Manager.{Manager, create_session}
use moonparty.Manager.Invariant.{IsValid, create_session_lem}
use moonparty.Server.{Webrtc, Connection, is_ready, serving, dropped, handle_web_socket, admit}
use moonparty.Server.Handlers.{handle_web_socket_active, handle_web_socket_idle, active-known}

-- The object of the client: a spectator under the uuid that was drawn for it.
abbrev pub IsNewSpectator : Manager → ℕ → ℕ → ℕ → Type 0
IsNewSpectator t a p uuid =
    (((t.store a).store p).role ≡ spectator)
    × (((t.store a).store p).player_slot ≡ negsuc 0)
    × (((t.store a).store p).keyboard_enabled ≡ false)
    × (lookup uuid (t.store a).peers ≡ some p)

admit_serving :
    (m t : Manager) (w : Webrtc) (a b uuid now p : ℕ) (name : String)
    → admit m a w uuid now name ≡ (t, serving b p)
    → IsNewSpectator t b p uuid
unfolding admit update
admit_serving m t w a b uuid now p name h =
    ground (arith, lookup-insert uuid uuid (m.store a).next_ptr (m.store a).peers)

admit_dropped :
    (m t : Manager) (w : Webrtc) (a uuid now p : ℕ) (name : String)
    → admit m a w uuid now name ≡ (t, dropped p)
    → IsNewSpectator t a p uuid × (t.active ≡ m.active)
unfolding admit update
admit_dropped m t w a uuid now p name h =
    ground (arith, lookup-insert uuid uuid (m.store a).next_ptr (m.store a).peers)

created_active :
    (m : Manager) (sess_uuid host_uuid now : ℕ)
    → m.active ≡ none
    → (create_session m sess_uuid host_uuid now).0.active ≡ some m.next_ptr
unfolding create_session
created_active m sess_uuid host_uuid now e = ground arith

-- Every client that a WebSocket connection admits is a spectator without a slot and without the
-- keyboard, also the one whose connection creates the session.
pub handle_web_socket_spectator :
    (m t : Manager) (w : Webrtc) (sess_uuid host_uuid uuid now a p : ℕ) (name : String)
    → handle_web_socket m w sess_uuid host_uuid uuid now name ≡ (t, serving a p)
    → IsNewSpectator t a p uuid
handle_web_socket_spectator m t w sess_uuid host_uuid uuid now a p name h =
    elim (Option-cases m.active) [
      | inr (b, e) ↦
          admit_serving m t w b a uuid now p name
            (sym (handle_web_socket_active m w sess_uuid host_uuid uuid now b name e) ∙ h)
      | inl e ↦
          admit_serving (create_session m sess_uuid host_uuid now).0 t w m.next_ptr a uuid now p
            name (sym (handle_web_socket_idle m w sess_uuid host_uuid uuid now name e) ∙ h)
    ]

-- A failed set-up drops the client.
admit_broken :
    (m : Manager) (w : Webrtc) (a q uuid now : ℕ) (name : String)
    → (m.store a).host ≡ some q
    → is_ready w ≡ false
    → (admit m a w uuid now name).1 ≡ dropped (m.store a).next_ptr
unfolding admit
admit_broken m w a q uuid now name hosted fails = ground arith

handle_web_socket_broken :
    (m : Manager) (w : Webrtc) (sess_uuid host_uuid uuid now : ℕ) (name : String)
    → IsValid m
    → is_ready w ≡ false
    → (p : ℕ) × ((handle_web_socket m w sess_uuid host_uuid uuid now name).1 ≡ dropped p)
handle_web_socket_broken m w sess_uuid host_uuid uuid now name v fails =
    elim (Option-cases m.active) [
      | inr (a, e) ↦
          let (q, hosted) = v.hosted a (active-known m a v e) in
          (
            (m.store a).next_ptr,
            rw (handle_web_socket_active m w sess_uuid host_uuid uuid now a name e)
                (admit_broken m w a q uuid now name hosted fails),
          )
      | inl e ↦
          let m' : Manager = (create_session m sess_uuid host_uuid now).0 in
          let (valid, made, _) = create_session_lem m v sess_uuid host_uuid now in
          let (q, hosted) = valid.hosted m.next_ptr (active-known m' m.next_ptr valid (made e).0) in
          (
            (m'.store m.next_ptr).next_ptr,
            rw (handle_web_socket_idle m w sess_uuid host_uuid uuid now name e)
                (admit_broken m' w m.next_ptr q uuid now name hosted fails),
          )
    ]

dropped_stays :
    (m t : Manager) (w : Webrtc) (sess_uuid host_uuid uuid now p : ℕ) (name : String)
    → handle_web_socket m w sess_uuid host_uuid uuid now name ≡ (t, dropped p)
    → (a : ℕ) × (t.active ≡ some a) × IsNewSpectator t a p uuid
dropped_stays m t w sess_uuid host_uuid uuid now p name h = elim (Option-cases m.active) [
  | inr (b, e) ↦
      let (there, same) =
        admit_dropped m t w b uuid now p name
          (sym (handle_web_socket_active m w sess_uuid host_uuid uuid now b name e) ∙ h) in
      (b, same ∙ e, there)
  | inl e ↦
      let (there, same) =
        admit_dropped (create_session m sess_uuid host_uuid now).0 t w m.next_ptr uuid now p name
          (sym (handle_web_socket_idle m w sess_uuid host_uuid uuid now name e) ∙ h) in
      (m.next_ptr, same ∙ created_active m sess_uuid host_uuid now e, there)
]

-- When the WebRTC set-up of a new client of a well-formed server fails, its connection is closed, but
-- the client stays in the active session as a spectator.
pub handle_web_socket_dropped :
    (m : Manager) (w : Webrtc) (sess_uuid host_uuid uuid now : ℕ) (name : String)
    → IsValid m
    → is_ready w ≡ false
    → let (t, o) = handle_web_socket m w sess_uuid host_uuid uuid now name in
      (a p : ℕ) × (o ≡ dropped p) × (t.active ≡ some a) × IsNewSpectator t a p uuid
handle_web_socket_dropped m w sess_uuid host_uuid uuid now name v fails =
    let t : Manager = (handle_web_socket m w sess_uuid host_uuid uuid now name).0 in
    let (p, e) = handle_web_socket_broken m w sess_uuid host_uuid uuid now name v fails in
    let (a, active, stays) =
      dropped_stays m t w sess_uuid host_uuid uuid now p name (ap (λ (o : Connection). (t, o)) e) in
    (a, p, e, active, stays)
