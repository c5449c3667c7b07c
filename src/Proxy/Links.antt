-- ===== src/Proxy/Links.antt =====
-- internal/proxy/handler.go: the values of a Link header and which of them are of the Xet protocol.
use pulsys.Common.{
  ℕ, suc, Bool, false, not, ◌&&◌, ◌||◌, List, [], ◌∷◌, none, some, if◌then◌else◌, ◌==◌, ◌-◌, Bytes,
  codes, bytes_eq, cut_text, has_prefix, join_with, split_at, to_lower, trim, is_space, ltb,
}

-- Where the loop of `splitLinkValues` is: the depth in angle brackets, whether a quote is open.
pub record LinkState : Type 0 where
  pub depth : ℕ
  pub in_quote : Bool

unfoldable pub link_step : LinkState → ℕ → LinkState
link_step st c =
    if c == b'<'
    then (if st.in_quote then st else record st { depth = suc st.depth })
    else if c == b'>'
    then (if not st.in_quote && ltb 0 st.depth then record st { depth = st.depth - 1 } else st)
    else if c == b'"'
    then record st { in_quote = not st.in_quote }
    else st

-- A comma here ends the value.
unfoldable pub is_link_end : LinkState → ℕ → Bool
is_link_end st c = c == b',' && (st.depth == 0 && not st.in_quote)

-- The pieces, not yet trimmed.
unfoldable pub link_pieces : LinkState → Bytes → Bytes × List Bytes
unfolding link_step is_link_end
link_pieces st [] = ([], [])
link_pieces st (c ∷ s) =
    let rest = link_pieces (link_step st c) s in
    if is_link_end st c then ([], rest.0 ∷ rest.1) else (c ∷ rest.0, rest.1)

unfoldable pub trim_all : List Bytes → List Bytes
unfolding trim
trim_all [] = []
trim_all (s ∷ rest) = trim s ∷ trim_all rest

unfoldable pub split_link_values : Bytes → List Bytes
unfolding link_pieces trim_all
split_link_values v =
    let pieces = link_pieces (record { depth = 0; in_quote = false }) v in
    trim_all (pieces.0 ∷ pieces.1)

-- The text up to the first byte that passes the test, or all of it.
abbrev until : (ℕ → Bool) → Bytes → Bytes
until p s = elim (split_at p s) [ none ↦ s | some (a, b) ↦ a ]

-- The value of the `rel` parameter, from behind its equals sign.
unfoldable pub rel_value : Bytes → Bytes
rel_value [] = []
rel_value (c ∷ rest) =
    if c == b'"'
    then until (λ d. d == b'"') rest
    else until (λ d. d == b';' || d == b',') (c ∷ rest)

-- `strings.Fields`: the words, the first of them still open.
unfoldable pub open_fields : Bytes → Bytes × List Bytes
open_fields [] = ([], [])
open_fields (c ∷ s) =
    let rest = open_fields s in
    if is_space c
    then ([], if bytes_eq rest.0 [] then rest.1 else rest.0 ∷ rest.1)
    else (c ∷ rest.0, rest.1)

unfoldable pub fields : Bytes → List Bytes
unfolding open_fields
fields s = let f = open_fields s in if bytes_eq f.0 [] then f.1 else f.0 ∷ f.1

unfoldable pub any_xet : List Bytes → Bool
any_xet [] = false
any_xet (tok ∷ rest) = has_prefix (codes "xet-") (to_lower tok) || any_xet rest

unfoldable pub link_value_is_xet : Bytes → Bool
unfolding cut_text rel_value fields any_xet
link_value_is_xet part = elim (cut_text (codes "rel=") (to_lower part)) [
  | none ↦ false
  | some (before, rest) ↦ any_xet (fields (rel_value rest))
]

unfoldable pub kept_parts : List Bytes → List Bytes
unfolding link_value_is_xet
kept_parts [] = []
kept_parts (part ∷ parts) =
    let rest = kept_parts parts in if link_value_is_xet part then rest else part ∷ rest

unfoldable pub strip_xet_links : List Bytes → List Bytes
unfolding split_link_values kept_parts join_with
strip_xet_links [] = []
strip_xet_links (v ∷ values) =
    let rest = strip_xet_links values in
    elim (kept_parts (split_link_values v)) [
      | [] ↦ rest
      | part ∷ parts ↦ join_with (codes ", ") (part ∷ parts) ∷ rest
    ]
