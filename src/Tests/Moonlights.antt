-- ===== src/Tests/Moonlights.antt =====
-- Input of two players on its way to the streaming server, and connections that come and go.
use moonparty.Base.All.{All}
use moonparty.Base.Result.{ok, err}
use moonparty.Base.Text.{codes}
use moonparty.Base.Assoc.{update, lookup, insert, delete}
use moonparty.Base.{
  ℕ, ◌<◌, ◌≡◌, ◌≢◌, refl, inl, true, false, some, List, [], ◌∷◌, ◌++◌, arith, pos, negsuc,
}
use moonparty.Input.{Packet, new_stream}
use moonparty.Limelight.Start.{start}
use moonparty.Limelight.{Client, Try, panics}
use moonparty.Moonlight.Format.{format, send_input-format}
use moonparty.Moonlight.Forwarding.{forward_all, forward_all_lem}
use moonparty.Moonlight.Frames.{LimelightStream, submit_all, submit_all_lem}
use moonparty.Moonlight.Life.{IsSound, fresh, here, next, starts, stops, Reach-IsSound}
use moonparty.Moonlight.Play.{send_input}
use moonparty.Moonlight.Players.{sent, SitsIn, send_input_apart}
use moonparty.Moonlight.Wire.{OnChannel, Carries}
use moonparty.Moonlight.Words.{Gamepad, IsGamepad}
use moonparty.Moonlight.{
  Adapter, Target, handled, settle, stop_active, start_connection, stop_connection,
}
use moonparty.Server.Input.{IsAuthorized}
use moonparty.Session.{
  InputPacket, gamepad, new_session, add_host, add_spectator, promote_to_player, available_slot,
  find_slot,
}
use moonparty.Tests.Limelights.{system, config, client, client-connects}
use moonparty.Tests.Sessions.{with_three, three_Inv}
use moonparty.Video.{Submission}

abbrev version : moonparty.Control.AppVersion
version = record { major = pos 7; minor = pos 0; build = pos 0; patch = pos 0 }

abbrev before : Adapter
before = fresh (new_stream version false)

abbrev server : Target
server = record {
  address = codes "game.local:47989";
  app_version = codes "7.1.431.-1";
  config = config;
}

settled_ok : (a : Adapter) (m : Client × Try Unit) → m.1 ≡ ok tt → (settle a m).1 ≢ err panics
unfolding settle
settled_ok a (c, ok u) e f = cc
settled_ok a (c, err x) e f = cc

start_returns : (start_connection (system []) server before).1 ≢ err panics
unfolding start_connection
start_returns =
    settled_ok (stop_active (system []) before) (start (system []) client) client-connects

abbrev after : Adapter
after = stop_connection (system []) (start_connection (system []) server before).0

-- A connection that is started and stopped.
Reach-IsSound_example : IsSound after
Reach-IsSound_example =
    Reach-IsSound (new_stream version false) after
      (next (next here (starts (system []) server start_returns)) (stops (system [])))

abbrev playing : Adapter
playing = record before { active_client = some (record client { has_input = true }); live = true }

-- The state of a gamepad with A held and the left stick to the left and up.
abbrev held : Gamepad
held = record {
  buttons = 0x1000;
  axes = record {
    left_trigger = 255;
    right_trigger = 0;
    left_stick_x = negsuc 32766;
    left_stick_y = pos 32767;
    right_stick_x = pos 0;
    right_stick_y = negsuc 0;
  };
}

held-IsGamepad : IsGamepad held
held-IsGamepad = omega arith

abbrev from_bob : InputPacket
from_bob = record {
  type = gamepad;
  peer_id = 2;
  player_slot = pos 1;
  payload = format held ++ 0 ∷ 0 ∷ [];
}

abbrev from_ann : InputPacket
from_ann = record {
  type = gamepad;
  peer_id = 1;
  player_slot = pos 0;
  payload = format held ++ 0 ∷ 0 ∷ [];
}

send_input-format_example :
    (b : Adapter) × (p : Packet) × (send_input playing true from_bob ≡ handled b (p ∷ []))
    × Carries 1 held p
unfolding new_stream
send_input-format_example =
    send_input-format playing (record client { has_input = true }) from_bob 1 held (0 ∷ 0 ∷ []) refl
      refl refl refl refl refl (omega arith) refl (omega arith) held-IsGamepad

ann-IsAuthorized : IsAuthorized with_three 1 from_ann
unfolding new_session add_host add_spectator promote_to_player available_slot find_slot update
    lookup insert delete
ann-IsAuthorized = (0, 0, refl, refl, refl, omega arith, refl, λ e. cc, inl refl)

bob-IsAuthorized : IsAuthorized with_three 2 from_bob
unfolding new_session add_host add_spectator promote_to_player available_slot find_slot update
    lookup insert delete
bob-IsAuthorized = (1, 1, refl, refl, refl, omega arith, refl, λ e. cc, inl refl)

send_input_apart_example :
    (i j : ℕ) × (i < 4)
    × (j < 4)
    × (i ≢ j)
    × SitsIn with_three 1 i
    × SitsIn with_three 2 j
    × All (OnChannel i) (sent (send_input playing true from_ann))
    × All (OnChannel j) (sent (send_input playing true from_bob))
send_input_apart_example =
    send_input_apart with_three 1 2 from_ann from_bob playing playing true true three_Inv
      (omega arith) ann-IsAuthorized bob-IsAuthorized refl refl

forward_all_lem_example :
    (b : Adapter) × (packets : List Packet) × (forward_all playing
        (λ k. true)
        0
        (from_ann ∷ from_bob ∷ [])
      ≡ some (b, packets))
    × (b.input.locked ≡ false)
unfolding new_stream
forward_all_lem_example =
    forward_all_lem playing (λ k. true) 0 (from_ann ∷ from_bob ∷ [])
      (
        (with_three, 1, three_Inv, ann-IsAuthorized),
        ((with_three, 2, three_Inv, bob-IsAuthorized), tt),
      )
      refl

abbrev idle_stream : LimelightStream
idle_stream = record { video_frames = []; audio_frames = []; closed = false }

abbrev unit_of : List ℕ → Submission
unit_of bytes = record { frame_number = 1; is_idr = true; buffers = bytes ∷ (7 ∷ []) ∷ [] }

submit_all_lem_example :
    submit_all idle_stream (unit_of (1 ∷ []) ∷ unit_of (2 ∷ []) ∷ [])
    ≡ some (record idle_stream { video_frames = (1 ∷ 7 ∷ []) ∷ (2 ∷ 7 ∷ []) ∷ [] })
unfolding moonparty.Moonlight.Frames.collect
submit_all_lem_example =
    submit_all_lem idle_stream (unit_of (1 ∷ []) ∷ unit_of (2 ∷ []) ∷ []) refl (omega arith)
