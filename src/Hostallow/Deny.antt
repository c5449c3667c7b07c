-- ===== src/Hostallow/Deny.antt =====
-- What clears the host test, and what no list of hosts can clear.
use mathlib.Core.Path.{subst}
use pulsys.Common.{
  some, codes, any_byte, or-eq-false, ap, sym, ◌∙◌, ◌≢◌, All, Bool, true, false, List, [], ◌∷◌,
  ◌++◌, Option, Bytes, bytes_eq, bytes_eq_iff, to_lower, trim, Any, has_suffix-eq-true, or-eq-true,
  Bool-cases, guard-eq-true, ◌≡◌, ◌⊎◌, inl, inr, has_suffix,
}
use pulsys.Hostallow.{
  is_bracket, deny_hostnames, is_listed, bare_host, is_under, is_allowed, is_private_host,
  match_host,
}
use pulsys.Hostallow.Bare.{IsHostOf, trim_brackets-same, bare_host-IsHostOf}

-- The name is the entry, or ends in a dot and the entry.
abbrev pub IsUnder : Bytes → Bytes → Type 0
IsUnder h a = (h ≡ a) ⊎ ((p : Bytes) × (h ≡ p ++ b'.' ∷ a))

IsUnder-of_test : (h a : Bytes) → is_under h a ≡ true → IsUnder h a
unfolding is_under
IsUnder-of_test h a e = elim (or-eq-true (bytes_eq h a) (has_suffix (b'.' ∷ a) h) e) [
  | inl same ↦ inl ((bytes_eq_iff h a).0 same)
  | inr behind ↦ inr (has_suffix-eq-true (b'.' ∷ a) h behind)
]

Any-is_allowed :
    (h bare : Bytes) (allow : List Bytes)
    → is_allowed h bare allow ≡ true
    → Any (λ a. IsUnder h a ⊎ IsUnder bare a) allow
unfolding is_allowed
Any-is_allowed h bare [] e = cc
Any-is_allowed h bare (a ∷ allow) e = elim (Bool-cases (is_under h a)) [
  | inl f ↦ inl (inl (IsUnder-of_test h a f))
  | inr f ↦ elim (Bool-cases (is_under bare a)) [
    | inl g ↦ inl (inr (IsUnder-of_test bare a g))
    | inr g ↦ inr (Any-is_allowed h bare allow (rw (f, g) at e))
  ]
]

All-not_listed : (h : Bytes) (l : List Bytes) → is_listed h l ≡ false → All (λ d. h ≢ d) l
unfolding is_listed
All-not_listed h [] e = tt
All-not_listed h (d ∷ l) e =
    let (here, later) = or-eq-false (bytes_eq h d) (is_listed h l) e in
    ((λ same. let equal = (bytes_eq_iff h d).1 same in cc), All-not_listed h l later)

module _ {Ip : Type 0} (parse_ip : Bytes → Option Ip) (is_private : Ip → Bool) where
  public_address :
      (name : Bytes) (ip : Ip)
      → any_byte is_bracket name ≡ false
      → is_private_host parse_ip is_private name ≡ false
      → parse_ip name ≡ some ip
      → is_private ip ≡ false
  unfolding is_private_host
  public_address name ip brackets public parsed =
      let same = ap parse_ip (trim_brackets-same name brackets) ∙ parsed in
      rw (same, is_private_host) at public

  -- Of a host that is a name without colons, or an address in brackets, each with a port behind it or
  -- without, in lower case and without white space around it: if it passes, the name is none of the
  -- four denied ones and is not parsed as a private address, and the host or the name is an entry of
  -- the list or ends in a dot and an entry.
  pub match_host_sound :
      (allow : List Bytes) (host name : Bytes)
      → IsHostOf (to_lower (trim host)) name
      → match_host parse_ip is_private allow host ≡ true
      → All
          (λ d. name ≢ d)
          (codes "localhost"
            ∷ codes "metadata.google.internal"
            ∷ codes "metadata.aws.internal"
            ∷ codes "169.254.169.254"
            ∷ [])
        × ((ip : Ip) → parse_ip name ≡ some ip → is_private ip ≡ false)
        × Any (λ a. IsUnder (to_lower (trim host)) a ⊎ IsUnder name a) allow
  unfolding match_host deny_hostnames
  match_host_sound allow host name is_host h =
      let bare = bare_host-IsHostOf (to_lower (trim host)) name is_host in
      let (some_host, h1) = guard-eq-true (bytes_eq (to_lower (trim host)) []) _ h in
      let (listed, h2) =
        guard-eq-true (is_listed (bare_host (to_lower (trim host))) deny_hostnames) _ h1 in
      let (private, h3) =
        guard-eq-true (is_private_host parse_ip is_private (bare_host (to_lower (trim host)))) _
          h2 in
      (
        All-not_listed name deny_hostnames
            (ap (λ b. is_listed b deny_hostnames) (sym bare) ∙ listed),
        λ ip.
            public_address name ip is_host.no_bracket
              (ap (is_private_host parse_ip is_private) (sym bare) ∙ private),
        subst (λ b. Any (λ a. IsUnder (to_lower (trim host)) a ⊎ IsUnder b a) allow) bare
            (Any-is_allowed (to_lower (trim host)) _ allow h3),
      )
