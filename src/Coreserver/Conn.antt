-- ===== src/Coreserver/Conn.antt =====
-- internal/coreserver/server.go: `serveConn`, on the bytes that the peer sends until it closes. The
-- auth gate, the warm lookup and the fallback are parameters. A fallback gets the request and the
-- bytes behind its header block; it returns what it wrote and what it left to read, or `none` when the
-- connection is to be closed. Deadlines, pools and failing writes are not modelled.
pub mod Admission
use pulsys.Common.{
  ℕ, zero, suc, Bool, true, false, List, [], ◌∷◌, Option, none, some, ◌==◌, if◌then◌else◌, Bytes,
  codes,
}
use mathlib.Core.Option
use pulsys.Coreserver.Heads.{write_parser_error_response, write_auth_reject, write_status}
use pulsys.Coreserver.Parser.{read_request}
use pulsys.Coreserver.Request.{Request, Result, ok, err}
use pulsys.Coreserver.Warm.{Served}

-- What happens on the connection: a response that refuses, with its bytes; an answer from the cache;
-- a call of the fallback, with what it wrote if it did not fail.
pub data Event : Type 0 where
  refused : Bytes → Event
  warm : Request → Served → Event
  fell_back : Request → Option Bytes → Event

-- The fields of `Server` that the connection uses.
pub record Server : Type 0 where
  pub auth_gate : Option (Bytes → Bytes → ℕ × Bytes)
  pub require_auth : Bool
  pub try_warm : Request → Option Served
  pub fallback : Option (Request → Bytes → Option (Bytes × Bytes))

-- The response that rejects the request, if the gate does not let it pass.
unfoldable pub reject_at : Option (Bytes → Bytes → ℕ × Bytes) → Bool → Request → Option Bytes
unfolding write_auth_reject
reject_at (some check) require_auth req =
    let verdict = check req.auth req.path in
    if verdict.0 == 0 then none else some (write_auth_reject [] verdict.0 verdict.1 false)
reject_at none true req = some (
    write_auth_reject [] 503 (codes "data plane requires authentication but no gate is configured")
      false)
reject_at none false req = none

unfoldable pub rejection : Server → Request → Option Bytes
unfolding reject_at
rejection s = reject_at s.auth_gate s.require_auth

-- What is left to read, if the connection stays open.
abbrev pub stay_open : Request → Bytes → Option Bytes
stay_open req left = if req.keep_alive then some left else none

unfoldable pub after_fallback : Request → Option (Bytes × Bytes) → Event × Option Bytes
after_fallback req none = (fell_back req none, none)
after_fallback req (some (out, left)) = (fell_back req (some out), stay_open req left)

unfoldable pub fall_back :
    Option (Request → Bytes → Option (Bytes × Bytes)) → Request → Bytes → Event × Option Bytes
unfolding after_fallback write_status
fall_back none req left = (refused (write_status [] 503 (codes "Service Unavailable")), none)
fall_back (some handle) req left = after_fallback req (handle req left)

-- The answer to an admitted request, which the warm lookup gave or not.
unfoldable pub serve_request :
    Option Served
    → Option (Request → Bytes → Option (Bytes × Bytes))
    → Request
    → Bytes
    → Event × Option Bytes
unfolding fall_back
serve_request (some served) fallback req left = (warm req served, stay_open req left)
serve_request none fallback req left = fall_back fallback req left

unfoldable pub admit : Option Bytes → Server → Request → Bytes → Event × Option Bytes
unfolding serve_request
admit (some response) s req left = (refused response, none)
admit none s req left = serve_request (s.try_warm req) s.fallback req left

-- One round of the loop, on what is left to read, which is not empty.
unfoldable pub serve_parsed : Server → Result (Request × Bytes) → Event × Option Bytes
unfolding write_parser_error_response rejection admit
serve_parsed s (err e) = (refused (write_parser_error_response [] e), none)
serve_parsed s (ok (req, left)) = admit (rejection s req) s req left

unfoldable pub serve_round : Server → Bytes → Event × Option Bytes
unfolding read_request serve_parsed
serve_round s stream = serve_parsed s (read_request stream)

-- The loop, for at most so many rounds; `none` when they are used up.
unfoldable pub serve_conn : ℕ → Server → Bytes → Option (List Event)
unfolding serve_round
serve_conn zero s stream = none
serve_conn (suc fuel) s [] = some []
serve_conn (suc fuel) s (c ∷ stream) =
    let (event, more) = serve_round s (c ∷ stream) in
    elim more [
      | none ↦ some (event ∷ [])
      | some left ↦ Option.map (◌∷◌ event) (serve_conn fuel s left)
    ]
