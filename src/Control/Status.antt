-- ===== src/Control/Status.antt =====
-- moonlight-common-go/control/stream.go: frame statistics and the connection status.
use moonparty.Base.{
  ℕ, ◌+◌, ◌*◌, ◌/◌, ◌≤◌, ◌<◌, ◌≡◌, ◌≢◌, not, ◌⊎◌, refl, ap, sym, ◌∙◌, ◌++◌, Bool, true, false, ◌&&◌,
  Option, none, some, List, [], ◌∷◌, arith, ltb, leb, if◌then◌else◌, ℤ, pos, sub_ℕ, ltb_ℤ, ◌≤ℤ◌,
}
use moonparty.Control.{Stream, ConnectionStatus, okay, poor}
use moonparty.Control.Receive.{
  Callback, connection_status_update, set_hdr_mode, rumble, trigger_rumble, connection_terminated,
}

unfoldable pub update_frame_stats : Stream → ℕ → Bool → Stream
update_frame_stats s frame is_good =
    let s' : Stream = record s {
      last_seen_frame = frame;
      interval_total_count = s.interval_total_count + 1;
    } in
    if is_good
    then record s' { last_good_frame = frame; interval_good_count = s.interval_good_count + 1 }
    else s'

abbrev is_poor : ConnectionStatus → Bool
is_poor poor = true
is_poor okay = false

-- `100 - good * 100 / total`, with the division of `int`.
abbrev pub loss_percent : Stream → ℤ
loss_percent s = sub_ℕ 100 (s.interval_good_count * 100 / s.interval_total_count)

unfoldable pub judge : Stream → Stream × List Callback
judge s =
    let loss = loss_percent s in
    let s' : Stream = record s { last_loss_percent = loss } in
    if not (is_poor s.last_conn_status) && not (ltb_ℤ loss (pos 30))
    then (record s' { last_conn_status = poor }, connection_status_update poor ∷ [])
    else if not (ltb_ℤ (pos 5) loss) && is_poor s.last_conn_status
    then (record s' { last_conn_status = okay }, connection_status_update okay ∷ [])
    else (s', [])

-- Whether the interval of three seconds is over.
abbrev pub is_due : Option ℕ → ℕ → Bool
is_due none now = true
is_due (some since) now = leb (since + 3000) now

unfoldable pub check_connection_status : Stream → ℕ → Stream × List Callback
unfolding judge
check_connection_status s now =
    if is_due s.interval_start_time now
    then (let (s', calls) = if ltb 0 s.interval_total_count then judge s else (s, []) in
        (
          record s' {
            interval_start_time = some now;
            interval_good_count = 0;
            interval_total_count = 0;
          },
          calls,
        ))
    else (s, [])

-- What the callbacks have reported, starting from a status.
pub reported : ConnectionStatus → List Callback → ConnectionStatus
reported c [] = c
reported c (connection_status_update d ∷ rest) = reported d rest
reported c (_ ∷ rest) = reported c rest

-- No more good frames than frames are counted, and the last loss is a percentage.
pub record IsSane (s : Stream) : Type 0 where
  pub counted : s.interval_good_count ≤ s.interval_total_count
  pub percent : (pos 0 ≤ℤ s.last_loss_percent) × (s.last_loss_percent ≤ℤ pos 100)

update_frame_stats-IsSane :
    (s : Stream) (frame : ℕ) (is_good : Bool)
    → IsSane s
    → IsSane (update_frame_stats s frame is_good)
unfolding update_frame_stats
update_frame_stats-IsSane s frame is_good v = ground arith

percent_le : (g t : ℕ) → g ≤ t → 0 < t → g * 100 / t ≤ 100
percent_le g t h p = grind arith

check_connection_status-IsSane :
    (s : Stream) (now : ℕ) → IsSane s → IsSane (check_connection_status s now).0
unfolding check_connection_status
check_connection_status-IsSane s now v =
    ground (arith, percent_le s.interval_good_count s.interval_total_count)

-- The listener's view agrees with the stream's status after every check: a check that changes the
-- status makes exactly one call, with the new status, and one that does not makes none. The status turns poor only at a loss
-- of 30 percent or more and okay only at 5 percent or less, between which it stays as it is.
pub check_connection_status_lem :
    (s : Stream) (now : ℕ)
    → let (t, calls) = check_connection_status s now in
      (reported s.last_conn_status calls ≡ t.last_conn_status)
      × (((t.last_conn_status ≡ s.last_conn_status) × (calls ≡ []))
          ⊎ ((t.last_conn_status ≢ s.last_conn_status)
              × (calls ≡ connection_status_update t.last_conn_status ∷ [])))
      × (t.last_conn_status ≢ s.last_conn_status
          → (0 < s.interval_total_count)
            × (((t.last_conn_status ≡ poor) × (pos 30 ≤ℤ loss_percent s))
                ⊎ ((t.last_conn_status ≡ okay) × (loss_percent s ≤ℤ pos 5))))
unfolding check_connection_status reported
check_connection_status_lem s now = (ground arith, ground arith, λ ne. ground arith)

-- What happens to the statistics: a frame is counted, or the timer checks at a time.
pub data Tick : Type 0 where
  frame : ℕ → Bool → Tick
  check : ℕ → Tick

pub run : Stream → List Tick → Stream × List Callback
run s [] = (s, [])
run s (frame index is_good ∷ rest) = run (update_frame_stats s index is_good) rest
run s (check now ∷ rest) =
    let (t, calls) = check_connection_status s now in
    let (u, later) = run t rest in (u, calls ++ later)

reported-append :
    (c : ConnectionStatus) (xs ys : List Callback)
    → reported c (xs ++ ys) ≡ reported (reported c xs) ys
unfolding reported
reported-append c [] ys = refl
reported-append c (connection_status_update d ∷ xs) ys = reported-append d xs ys
reported-append c (set_hdr_mode b ∷ xs) ys = reported-append c xs ys
reported-append c (rumble n l h ∷ xs) ys = reported-append c xs ys
reported-append c (trigger_rumble n l r ∷ xs) ys = reported-append c xs ys
reported-append c (connection_terminated n ∷ xs) ys = reported-append c xs ys

update_frame_stats-status :
    (s : Stream) (index : ℕ) (is_good : Bool)
    → (update_frame_stats s index is_good).last_conn_status ≡ s.last_conn_status
unfolding update_frame_stats
update_frame_stats-status s index is_good = ground arith

-- From a stream whose last loss is between 0 and 100 percent and that has counted no more good frames
-- than frames, over any frames and checks, both stay so, and the calls tell the listener the status
-- that the stream ends with.
pub run-IsSane :
    (s : Stream) (ticks : List Tick)
    → IsSane s
    → IsSane (run s ticks).0
      × (reported s.last_conn_status (run s ticks).1 ≡ (run s ticks).0.last_conn_status)
unfolding run
run-IsSane s [] v = (v, unfold reported in refl)
run-IsSane s (frame index is_good ∷ rest) v =
    let (sane, told) =
      run-IsSane (update_frame_stats s index is_good) rest
        (update_frame_stats-IsSane s index is_good v) in
    (
      sane,
      ap (λ (c : ConnectionStatus). reported c (run (update_frame_stats s index is_good) rest).1)
            (sym (update_frame_stats-status s index is_good))
          ∙ told,
    )
run-IsSane s (check now ∷ rest) v =
    let t : Stream = (check_connection_status s now).0 in
    let (sane, told) = run-IsSane t rest (check_connection_status-IsSane s now v) in
    (
      sane,
      reported-append s.last_conn_status (check_connection_status s now).1 (run t rest).1
          ∙ ap (λ (c : ConnectionStatus). reported c (run t rest).1)
              (check_connection_status_lem s now).0
          ∙ told,
    )
