-- ===== src/Limelight/Address.antt =====
-- moonlight-common-go/limelight/client.go: the address and the version of the server, as `Start`
-- reads them.
use moonparty.Base.Text.{
  Bytes, codes, is_empty, has, lower, cut, split, strip_prefix, is_digit, atoi,
}
use moonparty.Base.{
  ℕ, Bool, true, not, ◌||◌, Option, none, some, List, [], ◌∷◌, map, ℤ, ◌==◌, if◌then◌else◌,
}
use moonparty.Control.{AppVersion}
use moonparty.Limelight.{Client}

-- The texts around the last place of a byte.
unfoldable pub cut_last : ℕ → Bytes → Option (Bytes × Bytes)
cut_last c [] = none
cut_last c (x ∷ s) = elim (cut_last c s) [
  | some (a, b) ↦ some (x ∷ a, b)
  | none ↦ if x == c then some ([], s) else none
]

-- `net.SplitHostPort` behind a `[` at the start: the port stands behind `]:`, and there is no other
-- bracket and no colon in it.
unfoldable pub split_bracketed : Bytes → Option (Bytes × Bytes)
split_bracketed s = elim (cut b']' s) [
  | none ↦ none
  | some (host, []) ↦ none
  | some (host, c ∷ port) ↦
      if not (c == b':') || has b':' port || has b'[' host || has b'[' port || has b']' port
      then none
      else some (host, port)
]

unfoldable pub split_plain : Bytes → Option (Bytes × Bytes)
split_plain s = elim (cut_last b':' s) [
  | none ↦ none
  | some (host, port) ↦
      if has b':' host || has b'[' s || has b']' s then none else some (host, port)
]

-- `net.SplitHostPort`, with `none` for its error.
unfoldable pub split_host_port : Bytes → Option (Bytes × Bytes)
split_host_port [] = none
split_host_port (c ∷ s) = if c == b'[' then split_bracketed s else split_plain (c ∷ s)

-- The digits that a part begins with.
unfoldable pub number_prefix : Bytes → Bytes
number_prefix [] = []
number_prefix (c ∷ s) = let rest = number_prefix s in if is_digit c then c ∷ rest else []

abbrev number_of : Bytes → ℤ
number_of part = (atoi (number_prefix part)).0

-- A part that is missing leaves what the version was.
unfoldable pub version_of : List Bytes → AppVersion → AppVersion
version_of [] v = v
version_of (a ∷ []) v = record v { major = number_of a }
version_of (a ∷ b ∷ []) v = record v { major = number_of a; minor = number_of b }
version_of (a ∷ b ∷ c ∷ []) v = record v {
  major = number_of a;
  minor = number_of b;
  build = number_of c;
}
version_of (a ∷ b ∷ c ∷ d ∷ more) v = record {
  major = number_of a;
  minor = number_of b;
  build = number_of c;
  patch = number_of d;
}

unfoldable pub parse_app_version : Client → Client
parse_app_version c = record c {
  app_version = version_of (split b'.' c.app_version_text) c.app_version;
}

-- `strings.Contains`.
unfoldable pub contains : Bytes → Bytes → Bool
contains [] part = is_empty part
contains (c ∷ s) part =
    let rest = contains s part in
    elim (strip_prefix part (c ∷ s)) [ some after ↦ true | none ↦ rest ]

unfoldable pub names_sunshine : Bytes → Bool
names_sunshine version = contains (map lower version) (codes "sunshine")
