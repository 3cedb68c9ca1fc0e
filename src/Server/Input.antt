-- ===== src/Server/Input.antt =====
-- Which input reaches the queue, and from whom.
use moonparty.Base.{
  ℕ, ◌<◌, ◌≡◌, ◌≢◌, ◌⊎◌, refl, inl, inr, true, false, none, some, List, [], ◌∷◌, ◌++◌, arith, pos,
  length, Option-cases, Bool-cases,
}
use moonparty.Base.Assoc.{lookup}
use moonparty.Session.{Session, InputPacket, InputType, gamepad, touch, host, input_capacity}
use moonparty.Session.Query.{can_send_input, get_player_slot, close}
use moonparty.Session.Invariant.{Inv}
use moonparty.Server.{queue_peer_input}

-- Who may put a packet into the queue: a peer of the map that sits in the slot which the packet
-- names; what is not from a gamepad needs the host's role or the keyboard permission.
abbrev pub IsAuthorized : Session → ℕ → InputPacket → Type 0
IsAuthorized s id packet =
    (p i : ℕ) × (lookup id s.peers ≡ some p)
    × (packet.peer_id ≡ id)
    × (packet.player_slot ≡ pos i)
    × (i < 4)
    × (s.player_slot i ≡ some p)
    × (packet.type ≢ touch)
    × ((packet.type ≡ gamepad) ⊎ ((s.store p).role ≡ host) ⊎ ((s.store p).keyboard_enabled ≡ true))

-- The packet that the handler builds.
abbrev packet_of : Session → ℕ → InputType → List ℕ → InputPacket
packet_of s id type payload = record {
  type = type;
  peer_id = id;
  player_slot = get_player_slot s id;
  payload = payload;
}

can_send_input-IsAuthorized :
    (s : Session) (id : ℕ) (type : InputType) (payload : List ℕ)
    → Inv s
    → can_send_input s id type ≡ true
    → IsAuthorized s id (packet_of s id type payload)
unfolding can_send_input get_player_slot
can_send_input-IsAuthorized s id type payload v h = elim (Option-cases (lookup id s.peers)) [
  | inl e ↦ absurd (ground arith)
  | inr (p, e) ↦ elim (v.placed id p e) [
    | inl (out, _) ↦ absurd (ground arith)
    | inr (i, in_role, names, sits) ↦
        (p, i, e, refl, ground arith, (v.seated i p sits).0, sits, ground arith, ground arith)
  ]
]

-- The queue after the handler, where the peer may send.
queue_peer_input_sent :
    (s t : Session) (id : ℕ) (type : InputType) (payload : List ℕ) (i : ℕ)
    → can_send_input s id type ≡ true
    → get_player_slot s id ≡ pos i
    → queue_peer_input s id type payload ≡ some t
    → (t ≡ s)
      ⊎ ((t ≡ record s { input_chan = s.input_chan ++ packet_of s id type payload ∷ [] })
          × (length s.input_chan < input_capacity))
unfolding queue_peer_input
queue_peer_input_sent s t id type payload i may slot h = ground arith

queue_peer_input_refused :
    (s t : Session) (id : ℕ) (type : InputType) (payload : List ℕ)
    → can_send_input s id type ≡ false
    → queue_peer_input s id type payload ≡ some t
    → t ≡ s
unfolding queue_peer_input
queue_peer_input_refused s t id type payload no_right h = ground arith

-- In a well-formed session, handling a peer's input leaves the session as it was, or adds to the end
-- of the queue, which had room, one packet of that type and content that the peer was authorized
-- to send; nothing else of the session changes.
pub queue_peer_input-IsAuthorized :
    (s t : Session) (id : ℕ) (type : InputType) (payload : List ℕ)
    → Inv s
    → queue_peer_input s id type payload ≡ some t
    → (t ≡ s)
      ⊎ ((packet : InputPacket) × (t ≡ record s { input_chan = s.input_chan ++ packet ∷ [] })
          × (length s.input_chan < input_capacity)
          × (packet.type ≡ type)
          × (packet.payload ≡ payload)
          × IsAuthorized s id packet)
queue_peer_input-IsAuthorized s t id type payload v h =
    elim (Bool-cases (can_send_input s id type)) [
      | inr no_right ↦ inl (queue_peer_input_refused s t id type payload no_right h)
      | inl may ↦ sent (can_send_input-IsAuthorized s id type payload v may) may
    ]
  where
    sent :
        IsAuthorized s id (packet_of s id type payload)
        → can_send_input s id type ≡ true
        → (t ≡ s)
          ⊎ ((packet : InputPacket) × (t ≡ record s { input_chan = s.input_chan ++ packet ∷ [] })
              × (length s.input_chan < input_capacity)
              × (packet.type ≡ type)
              × (packet.payload ≡ payload)
              × IsAuthorized s id packet)
    sent auth may = elim (queue_peer_input_sent s t id type payload auth.1 may auth.4 h) [
      | inl same ↦ inl same
      | inr (e, room) ↦ inr (packet_of s id type payload, e, room, refl, refl, auth)
    ]

-- A handler that fetched a well-formed session before another request closed it panics when it
-- queues the input of a peer that may send: the closed channel is still written to.
pub queue_peer_input-close :
    (s t : Session) (id : ℕ) (type : InputType) (payload : List ℕ)
    → Inv s
    → can_send_input s id type ≡ true
    → close s ≡ some t
    → queue_peer_input t id type payload ≡ none
unfolding queue_peer_input close can_send_input get_player_slot
queue_peer_input-close s t id type payload v may h =
    let auth = can_send_input-IsAuthorized s id type payload v may in ground (arith, auth.2, auth.4)
