-- ===== src/Hostallow.antt =====
-- internal/hostallow/hostallow.go: which hosts may be contacted upstream. Parsing an IP address and the
-- test for a private one are Go's package net, and parameters; a host is ASCII text.
pub mod Bare
pub mod Deny
use pulsys.Common.{
  ℕ, Bool, true, false, not, ◌||◌, List, [], ◌∷◌, ◌++◌, Option, none, some, if◌then◌else◌, ◌==◌,
  Bytes, codes, bytes_eq, split_at, to_lower, trim, has_prefix, has_suffix, cut_last, trim_front,
  trim_back,
}

unfoldable pub deny_hostnames : List Bytes
deny_hostnames =
    codes "localhost"
    ∷ codes "metadata.google.internal"
    ∷ codes "metadata.aws.internal"
    ∷ codes "169.254.169.254"
    ∷ []

unfoldable pub is_listed : Bytes → List Bytes → Bool
is_listed h [] = false
is_listed h (x ∷ xs) = bytes_eq h x || is_listed h xs

-- `strings.Trim(h, "[]")`
abbrev pub is_bracket : ℕ → Bool
is_bracket c = c == b'[' || c == b']'

unfoldable pub trim_brackets : Bytes → Bytes
unfolding trim_front trim_back
trim_brackets h = trim_back is_bracket (trim_front is_bracket h)

-- A host that begins with a bracket and has a colon.
unfoldable pub bare_literal : Bytes → Bytes
unfolding trim_brackets
bare_literal h = elim (split_at (λ c. c == b']') h) [
  | none ↦ h
  | some (a, b) ↦ elim a [ [] ↦ h | c ∷ s ↦ trim_brackets ((c ∷ s) ++ b']' ∷ []) ]
]

unfoldable pub bare_host : Bytes → Bytes
unfolding cut_last bare_literal trim_brackets
bare_host h = elim (cut_last b':' h) [
  | some (before, port) ↦ if has_prefix (codes "[") h then bare_literal h else before
  | none ↦ if has_prefix (codes "[") h then trim_brackets h else h
]

-- The entry of the list is the name, or a domain above it.
unfoldable pub is_under : Bytes → Bytes → Bool
unfolding has_suffix
is_under h a = bytes_eq h a || has_suffix (b'.' ∷ a) h

unfoldable pub is_allowed : Bytes → Bytes → List Bytes → Bool
unfolding is_under
is_allowed h bare [] = false
is_allowed h bare (a ∷ allow) =
    let rest = is_allowed h bare allow in
    if is_under h a then true else if is_under bare a then true else rest

module _ {Ip : Type 0} (parse_ip : Bytes → Option Ip) (is_private : Ip → Bool) where
  unfoldable pub is_private_host : Bytes → Bool
  unfolding trim_brackets
  is_private_host bare = elim (parse_ip (trim_brackets bare)) [
    | none ↦ false
    | some ip ↦ is_private ip
  ]

  -- The function that `New` returns.
  unfoldable pub match_host : List Bytes → Bytes → Bool
  unfolding bare_host deny_hostnames is_listed is_private_host is_allowed trim
  match_host allow host =
      let h = to_lower (trim host) in
      let bare = bare_host h in
      if bytes_eq h []
      then false
      else if is_listed bare deny_hostnames
      then false
      else if is_private_host bare
      then false
      else is_allowed h bare allow
