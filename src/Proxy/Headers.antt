-- ===== src/Proxy/Headers.antt =====
-- internal/proxy/handler.go: the headers that are kept with an object, replayed, sent upstream and
-- relayed to the client. A header set is the list of its names, in the canonical form of package
-- net/http, each with its values.
pub mod Clean
use pulsys.Common.{
  Bool, true, false, not, ◌||◌, ◌&&◌, List, [], ◌∷◌, ◌++◌, Option, none, some, if◌then◌else◌, ◌==◌,
  Bytes, codes, bytes_eq, to_lower, any_byte,
}
use pulsys.Cache.Key.{has_key}
use pulsys.Proxy.Links.{strip_xet_links}

abbrev pub Headers : Type 0
Headers = List (Bytes × List Bytes)

-- `Header.Get`
unfoldable pub header_get : Bytes → Headers → Bytes
header_get k [] = []
header_get k ((k', vv) ∷ rest) =
    let more = header_get k rest in
    if bytes_eq k k' then (elim vv [ [] ↦ [] | v ∷ _ ↦ v ]) else more

-- `Header.Set`
unfoldable pub header_set : Bytes → Bytes → Headers → Headers
header_set k v [] = (k, v ∷ []) ∷ []
header_set k v ((k', vv) ∷ rest) =
    let more = header_set k v rest in if bytes_eq k k' then (k', v ∷ []) ∷ rest else (k', vv) ∷ more

-- `Header.Add`
unfoldable pub header_add : Bytes → Bytes → Headers → Headers
header_add k v [] = (k, v ∷ []) ∷ []
header_add k v ((k', vv) ∷ rest) =
    let more = header_add k v rest in
    if bytes_eq k k' then (k', vv ++ v ∷ []) ∷ rest else (k', vv) ∷ more

-- `Header.Del`
unfoldable pub header_del : Bytes → Headers → Headers
header_del k [] = []
header_del k ((k', vv) ∷ rest) =
    let more = header_del k rest in if bytes_eq k k' then more else (k', vv) ∷ more

unfoldable pub add_values : Bytes → List Bytes → Headers → Headers
unfolding header_add
add_values k [] dst = dst
add_values k (v ∷ vv) dst = add_values k vv (header_add k v dst)

unfoldable pub hop_request_headers : List Bytes
hop_request_headers =
    codes "connection"
    ∷ codes "keep-alive"
    ∷ codes "proxy-connection"
    ∷ codes "upgrade"
    ∷ codes "te"
    ∷ codes "trailer"
    ∷ codes "transfer-encoding"
    ∷ codes "host"
    ∷ codes "accept-encoding"
    ∷ []

unfoldable pub hop_response_headers : List Bytes
hop_response_headers =
    codes "connection"
    ∷ codes "keep-alive"
    ∷ codes "proxy-connection"
    ∷ codes "upgrade"
    ∷ codes "transfer-encoding"
    ∷ []

unfoldable pub preserved_response_headers : List Bytes
preserved_response_headers =
    codes "X-Repo-Commit"
    ∷ codes "X-Linked-Etag"
    ∷ codes "X-Linked-Size"
    ∷ codes "X-Xet-Hash"
    ∷ codes "Accept-Ranges"
    ∷ []

unfoldable pub pick_from : Headers → List Bytes → List (Bytes × Bytes)
unfolding header_get
pick_from src [] = []
pick_from src (k ∷ names) =
    let rest = pick_from src names in
    elim (header_get k src) [ [] ↦ rest | c ∷ v ↦ (k, c ∷ v) ∷ rest ]

unfoldable pub pick_preserved_headers : Headers → List (Bytes × Bytes)
unfolding pick_from preserved_response_headers
pick_preserved_headers src = pick_from src preserved_response_headers

unfoldable pub apply_extra_headers : Headers → List (Bytes × Bytes) → Headers
unfolding header_set
apply_extra_headers dst [] = dst
apply_extra_headers dst ((k, []) ∷ extra) = apply_extra_headers dst extra
apply_extra_headers dst ((k, c ∷ v) ∷ extra) = apply_extra_headers (header_set k (c ∷ v) dst) extra

-- `if v != "" { hdr.Set(k, v) }`
unfoldable pub set_known : Bytes → Bytes → Headers → Headers
unfolding header_set
set_known k [] dst = dst
set_known k (c ∷ v) dst = header_set k (c ∷ v) dst

-- A byte that splits a response.
abbrev pub is_splitting : Bytes → Bool
is_splitting = any_byte (λ c. c == 13 || (c == 10 || c == 0))

unfoldable pub sanitise_header_value : Bytes → Option Bytes
sanitise_header_value v = if is_splitting v then none else some v

unfoldable pub sanitised_values : List Bytes → List Bytes
unfolding sanitise_header_value
sanitised_values [] = []
sanitised_values (v ∷ vv) =
    let rest = sanitised_values vv in
    elim (sanitise_header_value v) [ none ↦ rest | some s ↦ s ∷ rest ]

-- The header is not copied: a hop header, one set elsewhere, or one with a name that splits.
unfoldable pub is_dropped : Bytes → Bool
unfolding hop_response_headers
is_dropped k =
    has_key (to_lower k) hop_response_headers
    || (bytes_eq (to_lower k) (codes "content-length")
        || ((bytes_eq (to_lower k) (codes "location")
              || bytes_eq (to_lower k) (codes "content-location"))
            || is_splitting k))

-- The loop of `copyAndRewriteHeaders`.
unfoldable pub copy_headers : Headers → Headers → Headers
unfolding is_dropped add_values sanitised_values strip_xet_links
copy_headers dst [] = dst
copy_headers dst ((k, vv) ∷ rest) =
    copy_headers
      (if is_dropped k
        then dst
        else add_values k
            (sanitised_values
              (if bytes_eq (to_lower k) (codes "link") then strip_xet_links vv else vv))
            dst)
      rest

unfoldable pub set_sanitised : Bytes → Bytes → Headers → Headers
unfolding sanitise_header_value header_set
set_sanitised name v dst = elim (sanitise_header_value v) [
  | none ↦ dst
  | some s ↦ header_set name s dst
]

-- The location under this name, rewritten where that works.
unfoldable pub rewrite_header : (Bytes → Option Bytes) → Bytes → Headers → Headers → Headers
unfolding header_get set_sanitised
rewrite_header to_proxy name src dst =
    let loc = header_get name src in
    let sent : Bytes = elim (to_proxy loc) [ none ↦ loc | some nl ↦ nl ] in
    if bytes_eq loc [] then dst else set_sanitised name sent dst

-- `to_proxy` is the rewriting of a location, with the origin of the request.
unfoldable pub copy_and_rewrite_headers : (Bytes → Option Bytes) → Headers → Headers → Headers
unfolding copy_headers rewrite_header
copy_and_rewrite_headers to_proxy dst src =
    rewrite_header to_proxy (codes "Content-Location") src
      (rewrite_header to_proxy (codes "Location") src (copy_headers dst src))

-- The headers of the client that go upstream: no hop header and no credentials.
unfoldable pub outbound_from : Headers → Headers → Headers
unfolding hop_request_headers add_values
outbound_from hdr [] = hdr
outbound_from hdr ((k, vv) ∷ rest) =
    outbound_from
      (if has_key (to_lower k) hop_request_headers || bytes_eq (to_lower k) (codes "authorization")
        then hdr
        else add_values k vv hdr)
      rest
