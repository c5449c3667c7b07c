-- ===== src/Rewrite/RoundTrip.antt =====
-- The origin marker is taken off again, with every other byte of the query as it was.
use pulsys.Common.{
  true, false, List, [], ◌∷◌, ◌++◌, Option, none, some, Bytes, codes, bytes_eq, any_byte, ◌==◌, All,
  split_on, join_with, contains_text, contains_text-append, cut_prefix, cut_prefix-append,
  join_with-split_on, split_on-append, split_on-one, ◌≡◌, refl, sym, ap, ◌∙◌, append-nil,
  append_assoc, Bool-cases, inl, inr, Option-cases,
}
use pulsys.Rewrite.{
  origin_query_param, is_marker, kept_segments, origin_from, extract_and_strip_origin,
  append_origin,
}

-- No segment of the query is a marker.
abbrev pub HasNoMarker : Bytes → Type 0
HasNoMarker q = All (λ s. is_marker s ≡ false) (split_on b'&' q)

kept_segments-all :
    (segs : List Bytes) → All (λ s. is_marker s ≡ false) segs → kept_segments segs ≡ segs
unfolding kept_segments
kept_segments-all [] h = refl
kept_segments-all (s ∷ segs) (first, rest) = rw (first, kept_segments-all segs rest) refl

kept_segments-append :
    (xs ys : List Bytes) → kept_segments (xs ++ ys) ≡ kept_segments xs ++ kept_segments ys
unfolding kept_segments
kept_segments-append [] ys = refl
kept_segments-append (s ∷ xs) ys = elim (Bool-cases (is_marker s)) [
  | inl e ↦ rw (e, kept_segments-append xs ys) refl
  | inr e ↦ rw (e, kept_segments-append xs ys) refl
]

not_cut : (s : Bytes) → is_marker s ≡ false → cut_prefix (origin_query_param ++ codes "=") s ≡ none
unfolding is_marker
not_cut s h = elim (Option-cases (cut_prefix (origin_query_param ++ codes "=") s)) [
  | inl e ↦ e
  | inr (v, e) ↦ let missing : true ≡ false = rw e at h in cc
]

origin_from-append :
    (unescape : Bytes → Option Bytes) (xs ys : List Bytes)
    → All (λ s. is_marker s ≡ false) xs
    → origin_from unescape [] (xs ++ ys) ≡ origin_from unescape [] ys
unfolding origin_from
origin_from-append unescape [] ys h = refl
origin_from-append unescape (s ∷ xs) ys (first, rest) =
    rw (not_cut s first, origin_from) (origin_from-append unescape xs ys rest)

-- The last segment, of an escaped origin.
abbrev marked : Bytes → Bytes
marked e = origin_query_param ++ (codes "=" ++ e)

cut_marked : (e : Bytes) → cut_prefix (origin_query_param ++ codes "=") (marked e) ≡ some e
unfolding origin_query_param
cut_marked e = cut_prefix-append (origin_query_param ++ codes "=") e

is_marker-of_cut :
    (s e : Bytes) → cut_prefix (origin_query_param ++ codes "=") s ≡ some e → is_marker s ≡ true
unfolding is_marker
is_marker-of_cut s e h = rw h refl

is_marker-marked : (e : Bytes) → is_marker (marked e) ≡ true
is_marker-marked e = is_marker-of_cut (marked e) e (cut_marked e)

split_marked :
    (e : Bytes) → any_byte (λ c. c == b'&') e ≡ false → split_on b'&' (marked e) ≡ marked e ∷ []
unfolding origin_query_param
split_marked e h = split_on-one b'&' (marked e) h

-- What is made of the segments of a query.
abbrev stripped : (Bytes → Option Bytes) → List Bytes → Bytes × Bytes
stripped unescape segs = (origin_from unescape [] segs, join_with (codes "&") (kept_segments segs))

-- One segment that decodes to the value: that is the origin, and nothing is kept.
stripped_marker :
    (unescape : Bytes → Option Bytes) (s e origin : Bytes)
    → cut_prefix (origin_query_param ++ codes "=") s ≡ some e
    → is_marker s ≡ true
    → unescape e ≡ some origin
    → (origin_from unescape [] (s ∷ []) ≡ origin) × (kept_segments (s ∷ []) ≡ [])
unfolding origin_from kept_segments
stripped_marker unescape s e origin cut marker h = (rw (cut, h) refl, rw marker refl)

extract_stripped :
    (unescape : Bytes → Option Bytes) (raw : Bytes)
    → contains_text origin_query_param raw ≡ true
    → extract_and_strip_origin unescape raw ≡ stripped unescape (split_on b'&' raw)
unfolding extract_and_strip_origin
extract_stripped unescape [] h = absurd (cc)
extract_stripped unescape (c ∷ raw) h = rw (h, extract_and_strip_origin) refl

stripped-append :
    (unescape : Bytes → Option Bytes) (segs : List Bytes) (e origin : Bytes)
    → All (λ s. is_marker s ≡ false) segs
    → unescape e ≡ some origin
    → stripped unescape (segs ++ marked e ∷ []) ≡ (origin, join_with (codes "&") segs)
stripped-append unescape segs e origin clean decoded =
    let (value, nothing) =
      stripped_marker unescape (marked e) e origin (cut_marked e) (is_marker-marked e) decoded in
    let kept =
      kept_segments-append segs (marked e ∷ [])
      ∙ ap (λ l. kept_segments segs ++ l) nothing
      ∙ append-nil (kept_segments segs)
      ∙ kept_segments-all segs clean in
    let first = origin_from-append unescape segs (marked e ∷ []) clean ∙ value in
    rw (first, kept) refl

module _ (unescape : Bytes → Option Bytes) (escape : Bytes → Bytes) where
  -- The origin that was put on a query is taken off again, and leaves the query byte for byte as it
  -- was, if no segment of the query is a marker itself, the origin is not empty, and its escaped
  -- form has no ampersand and is decoded to the origin.
  pub extract_and_strip_origin-append_origin :
      (q origin : Bytes)
      → HasNoMarker q
      → bytes_eq origin [] ≡ false
      → any_byte (λ c. c == b'&') (escape origin) ≡ false
      → unescape (escape origin) ≡ some origin
      → extract_and_strip_origin unescape (append_origin escape q origin) ≡ (origin, q)
  unfolding append_origin join_with
  extract_and_strip_origin-append_origin q [] clean some_origin plain decoded = cc
  extract_and_strip_origin-append_origin [] (c ∷ origin) clean some_origin plain decoded =
      let e = escape (c ∷ origin) in
      extract_stripped unescape (marked e)
        (contains_text-append origin_query_param [] (codes "=" ++ e))
      ∙ ap (stripped unescape) (split_marked e plain)
      ∙ stripped-append unescape [] e (c ∷ origin) tt decoded
  extract_and_strip_origin-append_origin (b ∷ q) (c ∷ origin) clean some_origin plain decoded =
      let e = escape (c ∷ origin) in
      let whole : (b ∷ q) ++ b'&' ∷ marked e ≡ ((b ∷ q) ++ b'&' ∷ []) ++ marked e =
        sym (append_assoc (b ∷ q) (b'&' ∷ []) (marked e)) in
      let found =
        ap (contains_text origin_query_param) whole
        ∙ contains_text-append origin_query_param ((b ∷ q) ++ b'&' ∷ []) (codes "=" ++ e) in
      extract_stripped unescape ((b ∷ q) ++ b'&' ∷ marked e) found
      ∙ ap (stripped unescape) (
          split_on-append b'&' (b ∷ q) (marked e)
          ∙ ap (λ l. split_on b'&' (b ∷ q) ++ l) (split_marked e plain))
      ∙ stripped-append unescape (split_on b'&' (b ∷ q)) e (c ∷ origin) clean decoded
      ∙ ap (λ r. (c ∷ origin, r)) (join_with-split_on b'&' (b ∷ q))
