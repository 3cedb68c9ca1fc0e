-- ===== src/Base/Dict.antt =====
-- A Go map with string keys, as an association list in the order of the first writes.
use moonparty.Base.Splitting.{text_eq_refl, text_eq→eq}
use moonparty.Base.Text.{Bytes, text_eq}
use moonparty.Base.{
  false, inl, inr, Option, none, some, List, [], ◌∷◌, ◌≡◌, refl, if◌then◌else◌, Bool-cases,
}

-- A missing key of a `map[string]string` reads as the empty string: see `get`.
unfoldable pub find : Bytes → List (Bytes × Bytes) → Option Bytes
find k [] = none
find k ((j, v) ∷ m) = if text_eq j k then some v else find k m

-- `m[k]`.
unfoldable pub get : Bytes → List (Bytes × Bytes) → Bytes
unfolding find
get k m = elim (find k m) [ none ↦ [] | some v ↦ v ]

-- `m[k] = v`.
unfoldable pub put : Bytes → Bytes → List (Bytes × Bytes) → List (Bytes × Bytes)
put k v [] = (k, v) ∷ []
put k v ((j, w) ∷ m) = let rest = put k v m in if text_eq j k then (k, v) ∷ m else (j, w) ∷ rest

-- The writes of a list, one after the other.
abbrev pub put_all : List (Bytes × Bytes) → List (Bytes × Bytes) → List (Bytes × Bytes)
put_all [] m = m
put_all ((k, v) ∷ fields) m = put_all fields (put k v m)

pub find-put_self : (k v : Bytes) (m : List (Bytes × Bytes)) → find k (put k v m) ≡ some v
unfolding find put
find-put_self k v [] = rw (text_eq_refl k) refl
find-put_self k v ((j, w) ∷ m) = elim (Bool-cases (text_eq j k)) [
  | inl e ↦ rw (e, text_eq_refl k) refl
  | inr e ↦ rw (e, e) (find-put_self k v m)
]

pub find-put_ne :
    (k j v : Bytes) (m : List (Bytes × Bytes)) → text_eq k j ≡ false → find j (put k v m) ≡ find j m
unfolding find put
find-put_ne k j v [] ne = rw ne refl
find-put_ne k j v ((i, w) ∷ m) ne = elim (Bool-cases (text_eq i k)) [
  | inl e ↦ rw (e, ne, text_eq→eq i k e, ne) refl
  | inr e ↦ elim (Bool-cases (text_eq i j)) [
    | inl f ↦ rw (e, f) refl
    | inr f ↦ rw (e, f) (find-put_ne k j v m ne)
  ]
]
