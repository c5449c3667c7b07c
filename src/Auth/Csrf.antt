-- ===== src/Auth/Csrf.antt =====
-- internal/auth/csrf.go: the double-submit test of mutating requests. Which value the request's cookie
-- has is what package net/http finds, and `subtle.ConstantTimeCompare` is equality.
pub mod Submitted
use pulsys.Common.{
  Bool, true, false, not, ◌||◌, [], Option, none, some, if◌then◌else◌, Bytes, codes, bytes_eq, trim,
}
use pulsys.Auth.Roles.{Actor, ActorType, user, token, system, no_actor, is_someone}

pub record CsrfRequest : Type 0 where
  pub method : Bytes
  pub path : Bytes
  pub header : Bytes
  pub cookie : Option Bytes

unfoldable pub safe_method : Bytes → Bool
safe_method method =
    bytes_eq method (codes "GET")
    || (bytes_eq method (codes "HEAD") || bytes_eq method (codes "OPTIONS"))

unfoldable pub csrf_exempt_path : Bytes → Bool
csrf_exempt_path path =
    bytes_eq path (codes "/auth/session") || bytes_eq path (codes "/auth/oidc/config")

unfoldable pub cookie_agrees : Option Bytes → Bytes → Bool
cookie_agrees none header = false
cookie_agrees (some value) header = if bytes_eq value [] then false else bytes_eq value header

-- The test of a user's session.
unfoldable pub validate_session : CsrfRequest → Bytes → Bool
unfolding cookie_agrees trim
validate_session r session_csrf =
    if bytes_eq session_csrf []
    then false
    else if bytes_eq (trim r.header) []
    then false
    else if not (bytes_eq (trim r.header) session_csrf)
    then false
    else cookie_agrees r.cookie (trim r.header)

unfoldable pub validate_csrf : CsrfRequest → ActorType → Bytes → Bool
unfolding validate_session
validate_csrf r token session_csrf = true
validate_csrf r user session_csrf = validate_session r session_csrf
validate_csrf r system session_csrf = false
validate_csrf r no_actor session_csrf = false

-- True if the next handler is called, false for a 403.
unfoldable pub csrf_protect : CsrfRequest → ActorType → Bytes → Bool
unfolding safe_method csrf_exempt_path is_someone validate_csrf
csrf_protect r kind session_csrf =
    if safe_method r.method || csrf_exempt_path r.path
    then true
    else if not (is_someone kind)
    then true
    else validate_csrf r kind session_csrf
