-- ===== src/Proxy/Route.antt =====
-- internal/proxy/handler.go: where a request goes: the upstream host, the cache key and whether it is
-- for an artifact; the path of the alias under a commit's hash; the refusal without the network.
pub mod Allowed
use pulsys.Common.{
  ℕ, Bool, true, false, not, ◌||◌, ◌&&◌, List, [], ◌∷◌, ◌++◌, Option, none, some, if◌then◌else◌,
  ◌==◌, Bytes, codes, bytes_eq, cut_prefix, cut_text, split_at, to_lower, trim,
}
use pulsys.Cache.Key.{key_hex, is_content_addressed_host}
use pulsys.Classify.{artifact_get}
use pulsys.Proxy.Handler.{Handler, Answer, text}
use pulsys.Proxy.Headers.{Headers, header_set, header_del}

pub data Routed : Type 0 where
  routed : Bytes → Bytes → Routed
  bad_path : Routed
  not_allowed : Routed

-- What follows the prefix "/_p/".
unfoldable pub route_prefixed : Handler → Bytes → Routed
route_prefixed h rest = elim (split_at (λ c. c == b'/') rest) [
  | none ↦ bad_path
  | some (first, out) ↦
      if bytes_eq first [] || bytes_eq out []
      then bad_path
      else if not (h.allowf (to_lower first))
      then not_allowed
      else routed (to_lower first) (b'/' ∷ out)
]

unfoldable pub route_upstream : Handler → Bytes → Routed
unfolding route_prefixed trim
route_upstream h path = elim (cut_prefix (codes "/_p/") path) [
  | none ↦ routed (to_lower (trim h.default_host)) path
  | some rest ↦ route_prefixed h rest
]

unfoldable pub key_query : Bytes → Bytes → Bytes
unfolding is_content_addressed_host
key_query host raw_query = if is_content_addressed_host host then [] else raw_query

-- The key memo of the handler is not modelled: the key is computed.
unfoldable pub request_key : Handler → Bytes → Bytes → Bytes → Bytes → Bytes
unfolding key_hex key_query
request_key h method host path raw_query =
    key_hex h.sha256 method host path (key_query host raw_query) []

-- A HEAD is for an artifact if the GET is.
unfoldable pub is_artifact : Handler → Bytes → Bytes → Bytes → Bool
unfolding artifact_get
is_artifact h host method path =
    artifact_get h.default_host host method path
    || (bytes_eq method (codes "HEAD") && artifact_get h.default_host host (codes "GET") path)

unfoldable pub resolve_rev_alias_path : Bytes → Bytes → Option Bytes
unfolding cut_text
resolve_rev_alias_path path new_rev = elim (cut_text (codes "/resolve/") path) [
  | none ↦ none
  | some (before, rest) ↦ elim (split_at (λ c. c == b'/') rest) [
    | none ↦ none
    | some (rev, behind) ↦
        if bytes_eq rev []
        then none
        else if bytes_eq rev new_rev
        then some path
        else some (before ++ (codes "/resolve/" ++ (new_rev ++ b'/' ∷ behind)))
  ]
]

-- `http.Error`
unfoldable pub error_answer : Headers → ℕ → Bytes → Answer
unfolding header_set header_del
error_answer hdr status message = record {
  status = status;
  headers = header_set (codes "X-Content-Type-Options") (codes "nosniff") (
      header_set (codes "Content-Type") (codes "text/plain; charset=utf-8")
        (header_del (codes "Content-Length") hdr));
  body = text (message ++ codes "\n");
}

unfoldable pub format_bool : Bool → Bytes
format_bool true = codes "true"
format_bool false = codes "false"

unfoldable pub respond_offline : Headers → Bytes → Bytes → Bytes → Bytes → Bool → Bytes → Answer
unfolding header_set format_bool
respond_offline hdr host path range key artifact method = record {
  status = 504;
  headers = header_set (codes "X-Pulsys-Keyhex") key (
      header_set (codes "X-Pulsys-Offline") (codes "1")
        (header_set (codes "Content-Type") (codes "text/plain; charset=utf-8") hdr));
  body = text (
      codes "offline=1\nreason=cache-miss-in-offline-mode\nmethod="
      ++ (method
          ++ (codes "\nupstream_host="
              ++ (host
                  ++ (codes "\npath="
                      ++ (path
                          ++ (codes "\nrange="
                              ++ (range
                                  ++ (codes "\nkey_hex="
                                      ++ (key
                                          ++ (codes "\nartifact="
                                              ++ (format_bool artifact ++ codes "\n"))))))))))));
}
