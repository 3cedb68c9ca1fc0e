-- ===== src/Fec/Rounds.antt =====
-- moonlight-common-go/fec/fec.go: what the main loop of `invertMatrix` keeps.
use moonparty.Base.{
  ℕ, zero, suc, ◌+◌, ◌≤◌, ◌<◌, ◌≡◌, ◌≢◌, ◌∙◌, refl, sym, ap, inl, inr, arith, ◌==◌, ◌!=◌,
  if◌then◌else◌, ltb, Bool-cases,
}
use moonparty.Base.Assoc.{update}
use moonparty.Fec.Scalar.{Gf, gf_zero}
use moonparty.Fec.Sums.{sum_congr, swapped, swapped_twice, swapped_self, swapped_second, swapped-lt}
use moonparty.Fec.Matrix.{Cells, Elimination, swap_rows}
use moonparty.Fec.Pivots.{IsPivot}
use moonparty.Fec.Exchange.{Takes, exchanged, exchanged-Takes, Takes-of_exchanged}

-- The values of `a` at the marked columns, and of `b` at the others.
unfoldable pub mix : (ℕ → ℕ) → (ℕ → Gf) → (ℕ → Gf) → ℕ → Gf
mix p a b r = if p r == 1 then a r else b r

unfoldable pub count_marks : ℕ → (ℕ → ℕ) → ℕ
count_marks zero p = 0
count_marks (suc k) p = count_marks k p + (if p k == 1 then 1 else 0)

-- Where the swaps of the first rounds take a row.
unfoldable pub permuted : ℕ → (ℕ → ℕ) → (ℕ → ℕ) → ℕ → ℕ
permuted zero indxr indxc c = c
permuted (suc n) indxr indxc c = permuted n indxr indxc (swapped (indxr n) (indxc n) c)

pub permuted_congr :
    (n : ℕ) (f g f' g' : ℕ → ℕ) (c : ℕ)
    → ((i : ℕ) → i < n → f i ≡ f' i)
    → ((i : ℕ) → i < n → g i ≡ g' i)
    → permuted n f g c ≡ permuted n f' g' c
unfolding permuted
permuted_congr zero f g f' g' c h h' = refl
permuted_congr (suc n) f g f' g' c h h' =
    rw (h n (omega arith), h' n (omega arith))
      (permuted_congr n f g f' g' (swapped (f' n) (g' n) c) (λ i p. h i (omega arith))
        (λ i p. h' i (omega arith)))

pub Takes-congr :
    (k : ℕ) (s : Cells) (w v w' v' : ℕ → Gf)
    → ((c : ℕ) → w c ≡ w' c)
    → ((r : ℕ) → v r ≡ v' r)
    → Takes k s w v
    → Takes k s w' v'
Takes-congr k s w v w' v' ew ev h r p = sym (ev r) ∙ h r p ∙ sum_congr k _ _ (λ j q. rw (ew j))

pub swap_rows_lem : (s : Cells) (i j r c : ℕ) → swap_rows s i j r c ≡ s (swapped i j r) c
unfolding swap_rows
swap_rows_lem s i j r c = elim (Bool-cases (i != j)) [
  | inl differ ↦ rw differ
  | inr same ↦ let e : i ≡ j = ground arith in rw (same, e, swapped_self j r)
]

-- The rows of a matrix change places with the values that it gives.
module _ (k : ℕ) (s : Cells) (i j : ℕ) (p : i < k) (q : j < k) (w v : ℕ → Gf) where
  swap_rows-Takes : Takes k s w v → Takes k (swap_rows s i j) w (λ r. v (swapped i j r))
  swap_rows-Takes h r l =
      h (swapped i j r) (swapped-lt k i j r p q l)
      ∙ sum_congr k _ _ (λ c m. rw (swap_rows_lem s i j r c))

  Takes-of_swap_rows : Takes k (swap_rows s i j) w (λ r. v (swapped i j r)) → Takes k s w v
  Takes-of_swap_rows h r l =
      ap v (sym (swapped_twice i j r))
      ∙ h (swapped i j r) (swapped-lt k i j r p q l)
      ∙ sum_congr k _ _ (λ c m. rw (swap_rows_lem s i j (swapped i j r) c, swapped_twice i j r))

-- Rows that are not marked change places.
module _ (p : ℕ → ℕ) (i j : ℕ) (free : p i ≢ 1) (free' : p j ≢ 1) (a b : ℕ → Gf) (r : ℕ) where
  mix-swapped_values : mix p a b (swapped i j r) ≡ mix p a (λ c. b (swapped i j c)) r
  unfolding mix swapped
  mix-swapped_values = ground arith

  mix-swapped_unknowns : mix p a b r ≡ mix p (λ c. a (swapped i j c)) b r
  unfolding mix swapped
  mix-swapped_unknowns = ground arith

-- A column is marked.
module _ (p : ℕ → ℕ) (i : ℕ) (free : p i ≡ 0) (a b : ℕ → Gf) (r : ℕ) where
  update-mix : update (mix p a b) i (mix p b a i) r ≡ mix (update p i (p i + 1)) a b r
  unfolding mix update
  update-mix = ground arith

-- The unknowns and the values that the matrix of a round relates, at the values `z`.
abbrev pub Relates : ℕ → Cells → (ℕ → ℕ) → (ℕ → Gf) → (ℕ → Gf) → Type 0
Relates k s p x z = Takes k s (mix p z x) (mix p x z)

-- One round.
module _ (k : ℕ) (s : Cells) (p : ℕ → ℕ) (i j : ℕ) (pivot : IsPivot k p s i j) (x z : ℕ → Gf) where
  abbrev s' : Cells
  s' = swap_rows s i j

  abbrev z' : ℕ → Gf
  z' c = z (swapped i j c)

  pivot_free : p j ≢ 1
  pivot_free e = absurd (omega (arith, pivot.column_free))

  pub pivot_cell : swap_rows s i j j j ≢ gf_zero
  pivot_cell = rw (swap_rows_lem s i j j j, swapped_second i j) pivot.cell

  round_values : (r : ℕ) → mix p x z (swapped i j r) ≡ mix p x z' r
  round_values = mix-swapped_values p i j pivot.row_free pivot_free x z

  round_unknowns : (c : ℕ) → mix p z x c ≡ mix p z' x c
  round_unknowns = mix-swapped_unknowns p i j pivot.row_free pivot_free z x

  pub round_forth :
      Relates k s p x z
      → Relates k
          (exchanged k (swap_rows s i j) j)
          (update p j (p j + 1))
          x
          (λ c. z (swapped i j c))
  round_forth h =
      let swap =
        swap_rows-Takes k s i j pivot.row_below pivot.column_below (mix p z x) (mix p x z) h in
      let moved = Takes-congr k s' _ _ _ _ round_unknowns round_values swap in
      Takes-congr k (exchanged k (swap_rows s i j) j) _ _ _ _
        (update-mix p j pivot.column_free z' x) (update-mix p j pivot.column_free x z')
        (exchanged-Takes k (swap_rows s i j) j pivot.column_below pivot_cell (mix p z' x)
          (mix p x z') moved)

  pub round_back :
      Relates k (exchanged k (swap_rows s i j) j) (update p j (p j + 1)) x (λ c. z (swapped i j c))
      → Relates k s p x z
  round_back h =
      let moved =
        Takes-of_exchanged k (swap_rows s i j) j pivot.column_below pivot_cell (mix p z' x)
          (mix p x z')
          (Takes-congr k (exchanged k (swap_rows s i j) j) _ _ _ _
            (λ c. sym (update-mix p j pivot.column_free z' x c))
            (λ c. sym (update-mix p j pivot.column_free x z' c)) h) in
      Takes-of_swap_rows k s i j pivot.row_below pivot.column_below (mix p z x) (mix p x z)
        (Takes-congr k s' _ _ _ _ (λ c. sym (round_unknowns c)) (λ r. sym (round_values r)) moved)

pub count_marks-update :
    (k : ℕ) (p : ℕ → ℕ) (j : ℕ)
    → p j ≡ 0
    → count_marks k (update p j (p j + 1)) ≡ count_marks k p + (if ltb j k then 1 else 0)
unfolding count_marks update
count_marks-update zero p j z = ground arith
count_marks-update (suc k) p j z = ground (arith, count_marks-update k p j z)

-- What the loop keeps after the rounds at the columns below `n`: at most one mark at a place, as many
-- marks as rounds, swaps within the matrix, and a matrix that stands for the same equations.
pub record IsSound (k : ℕ) (a : Cells) (n : ℕ) (e : Elimination) : Type 0 where
  pub marks : (i : ℕ) → i < k → e.ipiv i ≤ 1
  pub counted : count_marks k e.ipiv ≡ n
  pub rows : (i : ℕ) → i < n → e.indxr i < k
  pub columns : (i : ℕ) → i < n → e.indxc i < k
  pub forth :
      (x y : ℕ → Gf)
      → Takes k a x y
      → Relates k e.src e.ipiv x (λ c. y (permuted n e.indxr e.indxc c))
  pub back :
      (x y : ℕ → Gf)
      → Relates k e.src e.ipiv x (λ c. y (permuted n e.indxr e.indxc c))
      → Takes k a x y
