-- ===== src/Input/Scroll.antt =====
-- The batched scroll: whole notches are sent, and what remains is kept.
use moonparty.Base.{
  ℕ, zero, suc, ◌+◌, ◌-◌, ◌/◌, ◌%◌, ◌<◌, ◌≤◌, ◌≡◌, inl, inr, refl, ap, ◌∙◌, sym, Bool, true, none,
  [], arith, ℤ, pos, negsuc, pos_part, neg_part, sub_ℕ, rem_ℤ, replicate, Bool-cases, ltb,
}
use moonparty.Input.{Stream, Packet, Outcome, returned}
use moonparty.Input.Packets.{build_scroll_packet}
use moonparty.Input.Send.{
  scroll_loop, send_batched_scroll, batched, notch, prefix, reliable, ctrl_channel_mouse,
}

abbrev pub with_delta : Stream → ℤ → Stream
with_delta s delta = record s { batched_scroll_delta = delta }

abbrev pub scroll_packet : Stream → ℤ → Packet
scroll_packet s amount = reliable ctrl_channel_mouse (build_scroll_packet s amount)

module _ (s : Stream) (ok : ℕ → Bool) (works : (i : ℕ) → ok i ≡ true) where
  loop_rest :
      (n k : ℕ) (delta : ℤ)
      → pos_part delta + neg_part delta < 120
      → scroll_loop n (with_delta s delta) ok k ≡ returned (with_delta s delta) [] none
  unfolding scroll_loop
  loop_rest zero k delta h = refl
  loop_rest (suc n) k delta h = ground arith

  loop_up :
      (n k m : ℕ)
      → 120 ≤ m
      → scroll_loop (suc n) (with_delta s (pos m)) ok k
        ≡ prefix
            (scroll_packet s (pos 120))
            (scroll_loop n (with_delta s (pos (m - 120))) ok (k + 1))
  unfolding scroll_loop
  loop_up n k m h = ground (arith, works k)

  loop_down :
      (n k m : ℕ)
      → 120 ≤ m
      → scroll_loop (suc n) (with_delta s (sub_ℕ 0 m)) ok k
        ≡ prefix
            (scroll_packet s (negsuc 119))
            (scroll_loop n (with_delta s (sub_ℕ 0 (m - 120))) ok (k + 1))
  unfolding scroll_loop
  loop_down n k m h = ground (arith, works k)

  -- The end of the loop that starts at the distance `m`, on the side `f` of zero.
  abbrev ends : (ℕ → ℤ) → Packet → ℕ → Outcome
  ends f p m = returned (with_delta s (f (m % 120))) (replicate (m / 120) p) none

  ends_near :
      (f : ℕ → ℤ) (p : Packet) (m : ℕ)
      → m < 120
      → returned (with_delta s (f m)) [] none ≡ ends f p m
  ends_near f p m h = let er = remainder m h in let eq = quotient m h in rw (er, eq) refl
    where
      remainder : (m : ℕ) → m < 120 → m % 120 ≡ m
      remainder m h = omega arith

      quotient : (m : ℕ) → m < 120 → m / 120 ≡ 0
      quotient m h = omega arith

  ends_far : (f : ℕ → ℤ) (p : Packet) (m : ℕ) → 120 ≤ m → prefix p (ends f p (m - 120)) ≡ ends f p m
  ends_far f p m h = let er = remainder m h in let eq = quotient m h in rw (er, eq) refl
    where
      remainder : (m : ℕ) → 120 ≤ m → m % 120 ≡ (m - 120) % 120
      remainder m h = omega arith

      quotient : (m : ℕ) → 120 ≤ m → m / 120 ≡ suc ((m - 120) / 120)
      quotient m h = omega arith

  by_rounds :
      (f : ℕ → ℤ) (p : Packet)
      → ((m : ℕ) → m < 120 → pos_part (f m) + neg_part (f m) < 120)
      → ((n k m : ℕ)
          → 120 ≤ m
          → scroll_loop (suc n) (with_delta s (f m)) ok k
            ≡ prefix p (scroll_loop n (with_delta s (f (m - 120))) ok (k + 1)))
      → (n k m : ℕ) → m ≤ n
      → scroll_loop n (with_delta s (f m)) ok k ≡ ends f p m
  by_rounds f p near far zero k m le =
      loop_rest zero k (f m) (near m (omega arith)) ∙ ends_near f p m (omega arith)
  by_rounds f p near far (suc n) k m le = elim (Bool-cases (ltb m 120)) [
    | inl e ↦
        let h : m < 120 = ground arith in loop_rest (suc n) k (f m) (near m h) ∙ ends_near f p m h
    | inr e ↦
        let h : 120 ≤ m = ground arith in
        far n k m h
        ∙ ap (prefix p) (by_rounds f p near far n (k + 1) (m - 120) (omega arith))
        ∙ ends_far f p m h
  ]

  loop_ends :
      (delta : ℤ)
      → scroll_loop (pos_part delta + neg_part delta) (with_delta s delta) ok 0
        ≡ returned
            (with_delta s (rem_ℤ delta 120))
            (replicate ((pos_part delta + neg_part delta) / 120) (scroll_packet s (notch delta)))
            none
  loop_ends (pos m) =
      rw (add_zero m)
        (by_rounds pos (scroll_packet s (pos 120)) (λ m h. omega arith) loop_up m 0 m (omega arith))
    where
      add_zero : (m : ℕ) → m + 0 ≡ m
      add_zero m = omega arith
  loop_ends (negsuc m) =
      rw (zero_add (suc m), turned m, sym (below m))
        (by_rounds (sub_ℕ 0) (scroll_packet s (negsuc 119)) (λ m h. ground arith) loop_down (suc m)
          0 (suc m) (omega arith))
    where
      zero_add : (m : ℕ) → 0 + m ≡ m
      zero_add m = omega arith

      turned : (m : ℕ) → notch (negsuc m) ≡ negsuc 119
      turned m = ground arith

      below : (m : ℕ) → sub_ℕ 0 (suc m) ≡ negsuc m
      below m = ground arith

  -- Where every write succeeds, a batched scroll sends one packet of 120 units, in the direction of
  -- the batched sum, for every 120 units of it, and keeps the remainder. The sum is the amount
  -- alone after a change of direction, and else with what was kept.
  pub send_batched_scroll_lem :
      (amount : ℤ)
      → let sum = batched s.batched_scroll_delta amount in
        send_batched_scroll s ok amount
        ≡ returned
            (with_delta s (rem_ℤ sum 120))
            (replicate ((pos_part sum + neg_part sum) / 120) (scroll_packet s (notch sum)))
            none
  unfolding send_batched_scroll
  send_batched_scroll_lem amount = loop_ends (batched s.batched_scroll_delta amount)
