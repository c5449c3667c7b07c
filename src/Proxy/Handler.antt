-- ===== src/Proxy/Handler.antt =====
-- internal/proxy/handler.go: `Handler`, with what of its configuration is read, and the answers it
-- gives. SHA-256 and what package net/url does are fields, and so parameters of all that uses them.
use pulsys.Common.{ℕ, Bool, Option, Bytes, ℤ, [], ◌∷◌, codes}
use pulsys.Proxy.Headers.{Headers}
use pulsys.Rewrite.{Location, location_to_proxy_with_origin}

pub record Handler : Type 0 where
  pub default_host : Bytes
  pub offline : Bool
  pub strict_offline : Bool
  pub upstream_hf_token : Bytes
  -- The wait for an interval in flight is bounded.
  pub bounded_wait : Bool
  pub allowf : Bytes → Bool
  pub sha256 : Bytes → Bytes
  pub escape : Bytes → Bytes
  pub unescape : Bytes → Option Bytes
  pub parse_url : Bytes → Option Location
  pub join_public : Bytes → Bytes → Option Bytes
  pub with_query : Bytes → Bytes → Bytes

unfoldable pub to_proxy : Handler → Bytes → Bytes → Option Bytes
unfolding location_to_proxy_with_origin
to_proxy h origin location =
    location_to_proxy_with_origin h.escape h.parse_url h.join_public h.with_query h.allowf location
      origin

-- What is sent behind the head: text, a part of an object's file, or bytes of the upstream's body.
pub data Body : Type 0 where
  text : Bytes → Body
  file : Bytes → ℤ → ℤ → Body
  relayed : ℕ → Body

pub record Answer : Type 0 where
  pub status : ℕ
  pub headers : Headers
  pub body : Body

-- `setDataPlaneSecurityHeaders`, on the empty header set
unfoldable pub security_headers : Headers
security_headers = (codes "X-Content-Type-Options", codes "nosniff" ∷ []) ∷ []
