-- ===== src/Tests/Controls.antt =====
-- Encrypted control streams.
use moonparty.Base.{◌≡◌, refl, true, false, arith, [], ◌∷◌, pos, negsuc}
use moonparty.Control.{Stream, app_version_at_least, new_stream, okay}
use moonparty.Control.Message.{build_encrypted_packet, ok, panic}
use moonparty.Control.Receive.{process_message, handle_packet}
use moonparty.Control.Framing.{process_message-build_encrypted_packet, process_message_short}
use moonparty.Control.Status.{
  reported, check_connection_status, check_connection_status_lem, IsSane, frame, check, run,
  run-IsSane,
}

abbrev sunshine : Stream
sunshine =
    new_stream (record { major = pos 7; minor = pos 1; build = pos 431; patch = negsuc 0 }) true

-- The server's termination message.
process_message-build_encrypted_packet_example :
    process_message sunshine (build_encrypted_packet sunshine 0x0109 (0 ∷ 3 ∷ 0 ∷ 1 ∷ [])).1
    ≡ ok (handle_packet sunshine 0x0109 (0 ∷ 3 ∷ 0 ∷ 1 ∷ []))
unfolding new_stream app_version_at_least
process_message-build_encrypted_packet_example =
    process_message-build_encrypted_packet sunshine sunshine 0x0109 (0 ∷ 3 ∷ 0 ∷ 1 ∷ [])
      (omega arith) (omega arith) refl

process_message_short_example :
    process_message sunshine (1 ∷ 0 ∷ 4 ∷ 0 ∷ 9 ∷ 9 ∷ 9 ∷ 9 ∷ []) ≡ panic
unfolding new_stream app_version_at_least
process_message_short_example =
    process_message_short sunshine (1 ∷ 0 ∷ 4 ∷ 0 ∷ 9 ∷ 9 ∷ 9 ∷ 9 ∷ []) refl (omega arith) refl
      (omega arith) (omega arith)

-- A second with two good frames of three: a loss of 34 percent.
check_connection_status_lem_example :
    reported okay
      (check_connection_status
        (record sunshine { interval_good_count = 2; interval_total_count = 3 })
        5000).1
    ≡ (check_connection_status
        (record sunshine { interval_good_count = 2; interval_total_count = 3 })
        5000).0.last_conn_status
unfolding new_stream
check_connection_status_lem_example =
    (check_connection_status_lem
      (record sunshine { interval_good_count = 2; interval_total_count = 3 }) 5000).0

new-IsSane : IsSane sunshine
unfolding new_stream
new-IsSane = record { counted = omega arith; percent = omega arith }

-- Two frames of which one is bad, a check that turns the connection poor, and one of an interval
-- without a frame.
run-IsSane_example :
    reported okay (run sunshine (frame 1 true ∷ frame 2 false ∷ check 5000 ∷ check 9000 ∷ [])).1
    ≡ (run sunshine
        (frame 1 true ∷ frame 2 false ∷ check 5000 ∷ check 9000 ∷ [])).0.last_conn_status
unfolding new_stream
run-IsSane_example =
    (run-IsSane sunshine (frame 1 true ∷ frame 2 false ∷ check 5000 ∷ check 9000 ∷ []) new-IsSane).1
