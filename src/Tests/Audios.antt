-- ===== src/Tests/Audios.antt =====
-- An audio stream that is not encrypted.
use moonparty.Base.{ℕ, ◌≡◌, refl, true, false, none, List, [], ◌∷◌, ◌++◌, arith, replicate}
use moonparty.Crypto.Ciphers.{Aes}
use moonparty.Audio.{Stream, datagram, new_stream}
use moonparty.Audio.Queue.{receive_all}
use moonparty.Audio.Loss.{Run, stop, next, receive_all_lost}

-- Ciphers are not needed.
abbrev no_aes : Aes
no_aes = record { new_cipher = λ k. none; new_gcm = λ b. none }

-- An audio packet with a sequence number below 256.
abbrev packet : ℕ → List ℕ
packet seq = 128 ∷ 97 ∷ 0 ∷ seq ∷ replicate 8 0 ++ 7 ∷ 7 ∷ []

abbrev running : Stream
running = record (new_stream false [] [] []) { last_seq = 5; received_data = true }

-- After packet 5 come 6 and 9: two are missing.
two_missing : Run 5 (datagram (packet 6) ∷ datagram (packet 9) ∷ []) 9 2
two_missing =
    next {i = 6} {lost = 2} (omega arith) refl (omega arith) (omega arith) (omega arith)
      (next {i = 9} {lost = 0} (omega arith) refl (omega arith) (omega arith) (omega arith) stop)

receive_all_lost_example :
    (receive_all no_aes running (datagram (packet 6) ∷ datagram (packet 9) ∷ [])).dropped_packets
    ≡ 2
unfolding new_stream
receive_all_lost_example =
    (receive_all_lost no_aes running (datagram (packet 6) ∷ datagram (packet 9) ∷ []) 5 9 2 refl
      refl (omega arith) (omega arith) two_missing).0

abbrev starting : Stream
starting = record (new_stream false [] [] []) { packets_to_drop = 3 }
