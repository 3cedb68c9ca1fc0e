-- ===== src/Base/Assoc.antt =====
-- A Go map with number keys, as an association list, and a pointer store as a function.
use Prim.Native.Nat.{ℕ, ◌≤◌}
use mathlib.Core.Path.{◌≡◌, refl}
use mathlib.Core.Logic.{◌≢◌}
use mathlib.Core.List.{List, [], ◌∷◌}
use mathlib.Core.Option.{Option, none, some}
use native.Mathlib.Omega.{arith}
use moonparty.Base.Tests.{◌==◌, if◌then◌else◌}
use moonparty.Base.Lists.{length}

module _ {ℓ} {V : Type ℓ} where
  -- `v, ok := m[k]`: `none` stands for a missing key.
  unfoldable pub lookup : ℕ → List (ℕ × V) → Option V
  lookup k [] = none
  lookup k ((j, v) ∷ m) = if j == k then some v else lookup k m

  -- `delete(m, k)`.
  unfoldable pub delete : ℕ → List (ℕ × V) → List (ℕ × V)
  delete k [] = []
  delete k ((j, v) ∷ m) = let rest = delete k m in if j == k then rest else (j, v) ∷ rest

  -- `m[k] = v`.
  unfoldable pub insert : ℕ → V → List (ℕ × V) → List (ℕ × V)
  insert k v m = (k, v) ∷ delete k m

  pub lookup-delete :
      (k j : ℕ) (m : List (ℕ × V)) → lookup j (delete k m) ≡ (if k == j then none else lookup j m)
  unfolding lookup delete
  lookup-delete k j [] = ground arith
  lookup-delete k j ((i, v) ∷ m) = ground (arith, lookup-delete k j m)

  pub lookup-insert :
      (k j : ℕ) (v : V) (m : List (ℕ × V))
      → lookup j (insert k v m) ≡ (if k == j then some v else lookup j m)
  unfolding lookup insert
  lookup-insert k j v m = ground (arith, lookup-delete k j m)

  pub length-delete-le : (k : ℕ) (m : List (ℕ × V)) → length (delete k m) ≤ length m
  unfolding delete
  length-delete-le k [] = omega arith
  length-delete-le k ((j, v) ∷ m) = ground (arith, length-delete-le k m)

  -- One cell of a store or an array of known bounds is written.
  unfoldable pub update : (ℕ → V) → ℕ → V → ℕ → V
  update f p v q = if p == q then v else f q

  pub update_lem :
      (f : ℕ → V) (p : ℕ) (v : V) (q : ℕ) → update f p v q ≡ (if p == q then v else f q)
  unfolding update
  update_lem f p v q = refl

  pub update_self : (f : ℕ → V) (p : ℕ) (v : V) → update f p v p ≡ v
  unfolding update
  update_self f p v = ground arith

  pub update_ne : (f : ℕ → V) (p : ℕ) (v : V) (q : ℕ) → q ≢ p → update f p v q ≡ f q
  unfolding update
  update_ne f p v q ne = ground arith
