-- ===== src/Server/Handlers.antt =====
-- The handlers of input, of departures and of new connections keep the server well formed, and
-- the first two do not panic.
use Prim.Native.String.{String}
use moonparty.Base.{
  ℕ, ◌<◌, ◌≡◌, ◌≢◌, ◌⊎◌, inl, inr, refl, [], ◌∷◌, ◌++◌, ltb, ltb_ℤ, pos, length, Bool, true, false,
  Option, none, some, List, arith, Option-cases, Bool-cases,
}
use moonparty.Session.{Session, InputPacket, InputType, input_capacity, add_spectator, remove_peer}
use moonparty.Session.Query.{send_input, can_send_input, get_player_slot}
use moonparty.Session.Invariant.{IsFresh}
use moonparty.Manager.{Manager, create_session}
use moonparty.Manager.Invariant.{IsValid, create_session_lem, close_session_lem}
use moonparty.Server.{
  Webrtc, handle_web_socket, admit, handle_peer_input, queue_peer_input, store_session,
  parse_input_type, name_or_player,
}
use moonparty.Server.Http.{
  Response, method_not_allowed, bad_request, no_active_session, left, host_left,
  handle_leave_session,
}
use moonparty.Server.Frames

-- A uuid that no object of any session has had.
abbrev pub IsNew : Manager → ℕ → Type 0
IsNew m uuid = (a : ℕ) → a < m.next_ptr → IsFresh (m.store a) uuid

pub active-known : (m : Manager) (a : ℕ) → IsValid m → m.active ≡ some a → a < m.next_ptr
active-known m a v h = ground (arith, v.active_listed a, v.listed (m.store a).id a)

send_input_open :
    (s : Session) (packet : InputPacket)
    → s.input_closed ≡ false
    → (t : Session) × (send_input s packet ≡ some t)
unfolding send_input
send_input_open s packet open_chan = elim (Bool-cases (ltb (length s.input_chan) input_capacity)) [
  | inl room ↦ (record s { input_chan = s.input_chan ++ packet ∷ [] }, ground arith)
  | inr full ↦ (s, ground arith)
]

-- On an open channel the input is dropped, or sent; it does not panic.
queue_peer_input_open :
    (s : Session) (id : ℕ) (type : InputType) (payload : List ℕ)
    → s.input_closed ≡ false
    → (t : Session) × (queue_peer_input s id type payload ≡ some t)
      × ((t ≡ s) ⊎ ((packet : InputPacket) × (send_input s packet ≡ some t)))
unfolding queue_peer_input
queue_peer_input_open s id type payload open_chan = elim (Bool-cases (can_send_input s id type)) [
  | inr no_right ↦ (s, ground arith, inl refl)
  | inl may ↦ elim (Bool-cases (ltb_ℤ (get_player_slot s id) (pos 0))) [
    | inl out ↦ (s, ground arith, inl refl)
    | inr in_slot ↦
        let packet : InputPacket = record {
          type = type;
          peer_id = id;
          player_slot = get_player_slot s id;
          payload = payload;
        } in
        let (t, e) = send_input_open s packet open_chan in (t, ground arith, inr (packet, e))
  ]
]

-- In a well-formed server the input of any peer is handled without a panic, and the server stays
-- well formed.
pub handle_peer_input-IsValid :
    (m : Manager) (id : ℕ) (type : String) (payload : List ℕ)
    → IsValid m
    → (t : Manager) × (handle_peer_input m id type payload ≡ some t) × IsValid t
unfolding handle_peer_input
handle_peer_input-IsValid m id type payload v = elim (Option-cases m.active) [
  | inl e ↦ (m, ground arith, v)
  | inr (a, e) ↦ elim (Option-cases (parse_input_type type)) [
    | inl f ↦ (m, ground arith, v)
    | inr (ty, f) ↦
        let known = active-known m a v e in
        let open_chan : (m.store a).input_closed ≡ false =
          ground (arith, v.active_listed a, v.listed (m.store a).id a) in
        let (t, q, how) = queue_peer_input_open (m.store a) id ty payload open_chan in
        (
          store_session m a t,
          ground arith,
          elim how [
            | inl same ↦ Frames.keep_same m v a known t same
            | inr (packet, sent) ↦ Frames.keep_send_input m v a known packet t sent
          ],
        )
  ]
]

-- In a well-formed server a request to leave is answered without a panic, and the server stays well
-- formed.
pub handle_leave_session-IsValid :
    (m : Manager) (is_post : Bool) (body : Option ℕ)
    → IsValid m
    → (t : Manager) × (r : Response) × (handle_leave_session m is_post body ≡ some (t, r))
      × IsValid t
unfolding handle_leave_session
handle_leave_session-IsValid m false body v = (m, method_not_allowed, refl, v)
handle_leave_session-IsValid m true none v = (m, bad_request, refl, v)
handle_leave_session-IsValid m true (some id) v = elim (Option-cases m.active) [
  | inl e ↦ (m, no_active_session, ground arith, v)
  | inr (a, e) ↦
      let m' : Manager = store_session m a (remove_peer (m.store a) id) in
      let kept = Frames.keep_remove_peer m v a (active-known m a v e) id in
      elim (Bool-cases (host_left (m'.store a) id)) [
        | inr stays ↦ (m', left, ground arith, kept)
        | inl goes ↦
            let (t, closes, valid, _, _) = close_session_lem m' kept (m'.store a).id in
            (t, left, ground arith, valid)
      ]
]

admit-state :
    (m : Manager) (a q : ℕ) (w : Webrtc) (uuid now : ℕ) (name : String)
    → (m.store a).host ≡ some q
    → (admit m a w uuid now name).0
      ≡ store_session m a (add_spectator (m.store a) uuid now (name_or_player name)).0
unfolding admit
admit-state m a q w uuid now name e = ground arith

admit-IsValid :
    (m : Manager) (a : ℕ) (w : Webrtc) (uuid now : ℕ) (name : String)
    → IsValid m
    → a < m.next_ptr
    → IsFresh (m.store a) uuid
    → IsValid (admit m a w uuid now name).0
admit-IsValid m a w uuid now name v known fresh =
    let (q, e) = v.hosted a known in
    rw (admit-state m a q w uuid now name e)
      (Frames.keep_add_spectator m v a known uuid now (name_or_player name) fresh)

created_session-IsFresh :
    (m : Manager) (sess_uuid host_uuid now uuid : ℕ)
    → m.active ≡ none
    → uuid ≢ host_uuid
    → IsFresh ((create_session m sess_uuid host_uuid now).0.store m.next_ptr) uuid
unfolding create_session
created_session-IsFresh m sess_uuid host_uuid now uuid e ne p h = λ f. ground arith

pub handle_web_socket_active :
    (m : Manager) (w : Webrtc) (sess_uuid host_uuid uuid now a : ℕ) (name : String)
    → m.active ≡ some a
    → handle_web_socket m w sess_uuid host_uuid uuid now name ≡ admit m a w uuid now name
unfolding handle_web_socket
handle_web_socket_active m w sess_uuid host_uuid uuid now a name e = ground arith

pub handle_web_socket_idle :
    (m : Manager) (w : Webrtc) (sess_uuid host_uuid uuid now : ℕ) (name : String)
    → m.active ≡ none
    → handle_web_socket m w sess_uuid host_uuid uuid now name
      ≡ admit (create_session m sess_uuid host_uuid now).0 m.next_ptr w uuid now name
unfolding handle_web_socket
handle_web_socket_idle m w sess_uuid host_uuid uuid now name e = ground arith

pub handle_web_socket-IsValid :
    (m : Manager) (w : Webrtc) (sess_uuid host_uuid uuid now : ℕ) (name : String)
    → IsValid m
    → IsNew m uuid
    → uuid ≢ host_uuid
    → IsValid (handle_web_socket m w sess_uuid host_uuid uuid now name).0
handle_web_socket-IsValid m w sess_uuid host_uuid uuid now name v new ne =
    elim (Option-cases m.active) [
      | inr (a, e) ↦
          let known = active-known m a v e in
          rw (handle_web_socket_active m w sess_uuid host_uuid uuid now a name e)
            (admit-IsValid m a w uuid now name v known (new a known))
      | inl e ↦
          let (valid, made, _) = create_session_lem m v sess_uuid host_uuid now in
          rw (handle_web_socket_idle m w sess_uuid host_uuid uuid now name e) (
            admit-IsValid (create_session m sess_uuid host_uuid now).0 m.next_ptr w uuid now name
              valid
              (active-known (create_session m sess_uuid host_uuid now).0 m.next_ptr valid
                (made e).0)
              (created_session-IsFresh m sess_uuid host_uuid now uuid e ne))
    ]
