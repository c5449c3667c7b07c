-- ===== src/Tests/Csrf.antt =====
-- Tests of the session's second token, of roles and of patterns of repositories.
use pulsys.Common.{Bool, true, false, [], ◌∷◌, some, Bytes, codes, bytes_eq, ◌≡◌, refl, ◌↔◌}
use pulsys.Auth.Csrf.{CsrfRequest, safe_method, csrf_exempt_path, csrf_protect}
use pulsys.Auth.Csrf.Submitted.{IsSubmitted, csrf_protect_iff}
use pulsys.Auth.Roles.{
  user, owner, admin, reader, Actor, has_scope, match_repo_glob, role_from_groups, parse_bearer,
}

abbrev submitted : CsrfRequest
submitted = record {
  method = codes "POST";
  path = codes "/admin/api/tokens";
  header = codes " t1 ";
  cookie = some (codes "t1");
}

submitted_passes : csrf_protect submitted user (codes "t1") ≡ true
unfolding csrf_protect
submitted_passes = refl

other_session_refused : csrf_protect submitted user (codes "t2") ≡ false
unfolding csrf_protect
other_session_refused = refl

post_mutating : safe_method submitted.method ≡ false
unfolding safe_method
post_mutating = refl

tokens_guarded : csrf_exempt_path submitted.path ≡ false
unfolding csrf_exempt_path
tokens_guarded = refl

csrf_protect_iff_example :
    (csrf_protect submitted user (codes "t1") ≡ true) ↔ IsSubmitted submitted (codes "t1")
csrf_protect_iff_example = csrf_protect_iff submitted (codes "t1") post_mutating tokens_guarded

abbrev plain_user : Actor
plain_user = record { kind = user; role = reader; scopes = codes "read" ∷ [] }

reader_scopes : has_scope plain_user (codes "write") ≡ false
unfolding has_scope
reader_scopes = refl

admin_scopes : has_scope (record plain_user { role = admin }) (codes "write") ≡ true
unfolding has_scope
admin_scopes = refl

abbrev path_equal : Bytes → Bytes → Bool
path_equal p s = bytes_eq p s

below_prefix : match_repo_glob path_equal (codes "/org/repo/") (codes " org/** " ∷ []) ≡ true
unfolding match_repo_glob
below_prefix = refl

first_group :
    role_from_groups (codes "ops" ∷ codes "root" ∷ []) (codes "root" ∷ []) (codes "ops" ∷ []) reader
    ≡ owner
unfolding role_from_groups
first_group = refl

bearer_found : parse_bearer (codes "bEARER  x ") ≡ some (codes "x")
unfolding parse_bearer
bearer_found = refl
