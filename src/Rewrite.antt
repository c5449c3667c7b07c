-- ===== src/Rewrite.antt =====
-- internal/rewrite/rewrite.go: the origin marker that a rewritten redirect carries in its query. Go's
-- `url.QueryEscape` and `url.QueryUnescape` are parameters, the second with no result on an error; so
-- is what package net/url makes of a location, its parts and the joined address.
pub mod RoundTrip
use pulsys.Common.{
  Bool, true, false, not, ◌||◌, ◌++◌, List, [], ◌∷◌, Option, none, some, if◌then◌else◌, Bytes,
  codes, bytes_eq, cut_prefix, contains_text, split_on, join_with, to_lower,
}

unfoldable pub origin_query_param : Bytes
origin_query_param = codes "__pulsys_origin"

-- `s == OriginQueryParam`, or the parameter with a value.
unfoldable pub is_marker : Bytes → Bool
unfolding origin_query_param
is_marker s = elim (cut_prefix (origin_query_param ++ codes "=") s) [
  | some v ↦ true
  | none ↦ bytes_eq s origin_query_param
]

-- The segments that are kept.
unfoldable pub kept_segments : List Bytes → List Bytes
unfolding is_marker
kept_segments [] = []
kept_segments (s ∷ segs) = let rest = kept_segments segs in if is_marker s then rest else s ∷ rest

-- `strings.TrimPrefix(path, "/")` of a path that is "/" when empty
unfoldable pub joined_path : Bytes → Bytes
joined_path [] = []
joined_path (c ∷ s) = elim (cut_prefix (codes "/") (c ∷ s)) [ none ↦ c ∷ s | some rest ↦ rest ]

-- What `url.Parse` says of a location.
pub record Location : Type 0 where
  pub scheme : Bytes
  pub host : Bytes
  pub hostname : Bytes
  pub escaped_path : Bytes
  pub raw_query : Bytes

module _ (unescape : Bytes → Option Bytes) where
  -- The value of the first marker that can be decoded and is not empty.
  unfoldable pub origin_from : Bytes → List Bytes → Bytes
  unfolding origin_query_param
  origin_from origin [] = origin
  origin_from [] (s ∷ segs) = elim (cut_prefix (origin_query_param ++ codes "=") s) [
    | none ↦ origin_from [] segs
    | some v ↦ elim (unescape v) [ none ↦ origin_from [] segs | some dec ↦ origin_from dec segs ]
  ]
  origin_from (c ∷ origin) (s ∷ segs) = c ∷ origin

  -- The origin, and the query without its markers.
  unfoldable pub extract_and_strip_origin : Bytes → Bytes × Bytes
  unfolding contains_text origin_query_param split_on join_with kept_segments origin_from
  extract_and_strip_origin raw_query =
      if bytes_eq raw_query [] || not (contains_text origin_query_param raw_query)
      then ([], raw_query)
      else (
        origin_from [] (split_on b'&' raw_query),
        join_with (codes "&") (kept_segments (split_on b'&' raw_query)),
      )

module _ (escape : Bytes → Bytes) where
  -- The query of a rewritten location.
  unfoldable pub append_origin : Bytes → Bytes → Bytes
  unfolding origin_query_param
  append_origin raw_query [] = raw_query
  append_origin [] (c ∷ origin) = origin_query_param ++ (codes "=" ++ escape (c ∷ origin))
  append_origin (q ∷ raw_query) (c ∷ origin) =
      (q ∷ raw_query) ++ (b'&' ∷ (origin_query_param ++ (codes "=" ++ escape (c ∷ origin))))

  module _ (parse : Bytes → Option Location) (join : Bytes → Bytes → Option Bytes)
      (with_query : Bytes → Bytes → Bytes) where
    -- `join` makes the address below the public base for a host and a path, `with_query` sets its query.
    unfoldable pub location_to_proxy_with_origin : (Bytes → Bool) → Bytes → Bytes → Option Bytes
    unfolding joined_path append_origin
    location_to_proxy_with_origin allow location origin = elim (parse location) [
      | none ↦ none
      | some u ↦
          let host = to_lower u.hostname in
          if bytes_eq u.scheme [] || bytes_eq u.host []
          then none
          else if not (bytes_eq u.scheme (codes "https") || bytes_eq u.scheme (codes "http"))
          then none
          else if not (allow host)
          then none
          else (elim (join host (joined_path u.escaped_path)) [
            | none ↦ none
            | some joined ↦ some (with_query joined (append_origin u.raw_query origin))
          ])
    ]
