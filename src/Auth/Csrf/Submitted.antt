-- ===== src/Auth/Csrf/Submitted.antt =====
-- Which requests of a session pass.
use pulsys.Common.{
  Bool, true, false, not, [], Option, none, some, if◌then◌else◌, Bytes, bytes_eq, bytes_eq_iff,
  trim, ◌≡◌, refl, ap, ◌∙◌, ◌↔◌, guard-eq-true,
}
use pulsys.Auth.Roles.{user, is_someone}
use pulsys.Auth.Csrf.{
  CsrfRequest, safe_method, csrf_exempt_path, cookie_agrees, validate_session, validate_csrf,
  csrf_protect,
}

-- The session's token is not empty, and the header, without white space around it, and the cookie are
-- that token.
pub record IsSubmitted (r : CsrfRequest) (session_csrf : Bytes) : Type 0 where
  pub some_token : bytes_eq session_csrf [] ≡ false
  pub in_header : trim r.header ≡ session_csrf
  pub in_cookie : r.cookie ≡ some session_csrf

not-guard-eq-true :
    (b next : Bool) → (if not b then false else next) ≡ true → (b ≡ true) × (next ≡ true)
not-guard-eq-true true next h = (refl, h)
not-guard-eq-true false next h = cc

cookie_agrees-eq-true :
    (cookie : Option Bytes) (header : Bytes)
    → cookie_agrees cookie header ≡ true
    → cookie ≡ some header
unfolding cookie_agrees
cookie_agrees-eq-true none header h = cc
cookie_agrees-eq-true (some value) header h =
    let (nonempty, same) = guard-eq-true (bytes_eq value []) _ h in
    ap (λ v. some v) ((bytes_eq_iff value header).0 same)

validate_session-IsSubmitted :
    (r : CsrfRequest) (session_csrf : Bytes)
    → validate_session r session_csrf ≡ true
    → IsSubmitted r session_csrf
unfolding validate_session
validate_session-IsSubmitted r session_csrf h =
    let (some_token, h1) = guard-eq-true (bytes_eq session_csrf []) _ h in
    let (some_header, h2) = guard-eq-true (bytes_eq (trim r.header) []) _ h1 in
    let (same, h3) = not-guard-eq-true (bytes_eq (trim r.header) session_csrf) _ h2 in
    let header = (bytes_eq_iff (trim r.header) session_csrf).0 same in
    record {
      some_token = some_token;
      in_header = header;
      in_cookie = cookie_agrees-eq-true r.cookie (trim r.header) h3 ∙ ap (λ v. some v) header;
    }

IsSubmitted-validate_session :
    (r : CsrfRequest) (session_csrf : Bytes)
    → IsSubmitted r session_csrf
    → validate_session r session_csrf ≡ true
unfolding validate_session cookie_agrees
IsSubmitted-validate_session r session_csrf h =
    let same = (bytes_eq_iff session_csrf session_csrf).1 refl in
    rw (h.in_header, h.in_cookie, h.some_token, same) refl

-- A request with a user's session that is neither of a safe method nor for an exempt path is let through
-- exactly when the session has a token and both the header and the cookie carry it.
pub csrf_protect_iff :
    (r : CsrfRequest) (session_csrf : Bytes)
    → safe_method r.method ≡ false
    → csrf_exempt_path r.path ≡ false
    → (csrf_protect r user session_csrf ≡ true) ↔ IsSubmitted r session_csrf
unfolding csrf_protect validate_csrf is_someone
csrf_protect_iff r session_csrf mutating guarded = (
  λ h. validate_session-IsSubmitted r session_csrf (rw (mutating, guarded) at h),
  λ h. rw (mutating, guarded) (IsSubmitted-validate_session r session_csrf h),
)
