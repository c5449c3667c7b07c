-- ===== src/Auth/Roles.antt =====
-- internal/auth/actor.go, rbac.go and token.go: roles, scopes, patterns of repositories and the bearer
-- token of a header. `path.Match` is Go's package path, and a parameter.
use pulsys.Common.{
  ℕ, Bool, true, false, not, ◌||◌, List, [], ◌∷◌, ◌++◌, Option, none, some, if◌then◌else◌, ◌==◌,
  Bytes, codes, bytes_eq, leb, ltb, length, take, drop, ◌-◌, trim, to_lower, has_prefix, has_suffix,
  trim_front, trim_back,
}

pub data Role : Type 0 where
  owner : Role
  admin : Role
  member : Role
  reader : Role
  no_role : Role

pub data ActorType : Type 0 where
  user : ActorType
  token : ActorType
  system : ActorType
  no_actor : ActorType

unfoldable pub parse_role : Bytes → Option Role
parse_role s =
    if bytes_eq s (codes "owner")
    then some owner
    else if bytes_eq s (codes "admin")
    then some admin
    else if bytes_eq s (codes "member")
    then some member
    else if bytes_eq s (codes "reader")
    then some reader
    else none

unfoldable pub rank : Role → ℕ
rank owner = 4
rank admin = 3
rank member = 2
rank reader = 1
rank no_role = 0

unfoldable pub at_least : Role → Role → Bool
unfolding rank
at_least r min = leb (rank min) (rank r)

pub record Actor : Type 0 where
  pub kind : ActorType
  pub role : Role
  pub scopes : List Bytes

unfoldable pub any_scope : Bytes → List Bytes → Bool
any_scope scope [] = false
any_scope scope (s ∷ rest) = (bytes_eq s scope || bytes_eq s (codes "*")) || any_scope scope rest

unfoldable pub is_admin_user : Actor → Bool
unfolding at_least
is_admin_user a = elim a.kind [ user ↦ at_least a.role admin | _ ↦ false ]

unfoldable pub is_someone : ActorType → Bool
is_someone no_actor = false
is_someone user = true
is_someone token = true
is_someone system = true

unfoldable pub has_scope : Actor → Bytes → Bool
unfolding is_someone is_admin_user any_scope
has_scope a scope =
    if not (is_someone a.kind)
    then false
    else if is_admin_user a
    then true
    else any_scope scope a.scopes

abbrev pub is_slash : ℕ → Bool
is_slash c = c == b'/'

-- `strings.Trim(s, "/")`
unfoldable pub trim_slashes : Bytes → Bytes
unfolding trim_front trim_back
trim_slashes s = trim_back is_slash (trim_front is_slash s)

-- `strings.TrimSuffix` of "/**" that is there
unfoldable pub without_stars : Bytes → Bytes
without_stars p = take (length p - 3) p

module _ (path_match : Bytes → Bytes → Bool) where
  unfoldable pub matches_pattern : Bytes → Bytes → Bool
  unfolding has_suffix without_stars
  matches_pattern repo p =
      if bytes_eq p []
      then false
      else if bytes_eq p (codes "*") || bytes_eq p (codes "**")
      then true
      else if has_suffix (codes "/**") p
      then bytes_eq repo (without_stars p) || has_prefix (without_stars p ++ codes "/") repo
      else path_match p repo

  unfoldable pub any_pattern : Bytes → List Bytes → Bool
  unfolding matches_pattern trim
  any_pattern repo [] = false
  any_pattern repo (p ∷ rest) = matches_pattern repo (trim p) || any_pattern repo rest

  unfoldable pub match_repo_glob : Bytes → List Bytes → Bool
  unfolding trim_slashes any_pattern trim
  match_repo_glob repo patterns =
      let r = trim_slashes (trim repo) in if bytes_eq r [] then false else any_pattern r patterns

unfoldable pub in_groups : Bytes → List Bytes → Bool
in_groups g [] = false
in_groups g (x ∷ xs) = bytes_eq g x || in_groups g xs

unfoldable pub any_group : List Bytes → List Bytes → Bool
unfolding in_groups
any_group [] groups = false
any_group (g ∷ rest) groups = in_groups g groups || any_group rest groups

unfoldable pub role_from_groups : List Bytes → List Bytes → List Bytes → Role → Role
unfolding any_group
role_from_groups groups owner_groups admin_groups default_role =
    if any_group owner_groups groups
    then owner
    else if any_group admin_groups groups
    then admin
    else default_role

-- The token behind "Bearer ", in any case of letters.
unfoldable pub parse_bearer : Bytes → Option Bytes
unfolding trim
parse_bearer h =
    if ltb (length h) 7 || not (bytes_eq (to_lower (take 7 h)) (codes "bearer "))
    then none
    else if bytes_eq (trim (drop 7 h)) []
    then none
    else some (trim (drop 7 h))
