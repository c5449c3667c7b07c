-- ===== src/Proxy/Route/Allowed.antt =====
-- The hosts that a request can be sent to.
use pulsys.Common.{
  true, false, ◌||◌, [], ◌∷◌, ◌++◌, none, ◌==◌, Bytes, codes, bytes_eq, cut_prefix,
  cut_prefix-eq-some, split_at, split_at-eq-some, sym, arith, to_lower, trim, ◌≡◌, ap, ◌∙◌, inl,
  inr, Option-cases, Bool-cases, or-eq-false,
}
use pulsys.Proxy.Handler.{Handler}
use pulsys.Proxy.Route.{routed, bad_path, not_allowed, route_prefixed, route_upstream}

-- The default host with the path as it is, or an allowed host that the path names, in front of a path
-- that is not empty.
pub data IsRoute (h : Handler) (path host out : Bytes) : Type 0 where
  by_default :
      cut_prefix (codes "/_p/") path ≡ none
      → host ≡ to_lower (trim h.default_host)
      → out ≡ path
      → IsRoute h path host out
  by_prefix :
      (first rest : Bytes)
      → path ≡ codes "/_p/" ++ (first ++ b'/' ∷ rest)
      → host ≡ to_lower first
      → h.allowf host ≡ true
      → bytes_eq first [] ≡ false
      → bytes_eq rest [] ≡ false
      → out ≡ b'/' ∷ rest
      → IsRoute h path host out

routed_injective : (a b c d : Bytes) → routed a b ≡ routed c d → (a ≡ c) × (b ≡ d)
routed_injective a b c d h = (cc, cc)

not_routed : (a b : Bytes) → (bad_path ≡ routed a b → ⊥) × (not_allowed ≡ routed a b → ⊥)
not_routed a b = (λ h. cc, λ h. cc)

IsRoute-route_prefixed :
    (h : Handler) (path rest host out : Bytes)
    → path ≡ codes "/_p/" ++ rest
    → route_prefixed h rest ≡ routed host out
    → IsRoute h path host out
unfolding route_prefixed
IsRoute-route_prefixed h path rest host out same e =
    elim (Option-cases (split_at (λ c. c == b'/') rest)) [
      | inl f ↦ absurd ((not_routed host out).0 (rw (f, route_prefixed) at e))
      | inr ((first, behind), f) ↦ elim (Bool-cases (bytes_eq first [] || bytes_eq behind [])) [
        | inl g ↦ absurd ((not_routed host out).0 (rw (f, g, route_prefixed) at e))
        | inr g ↦ elim (Bool-cases (h.allowf (to_lower first))) [
          | inr k ↦ absurd ((not_routed host out).1 (rw (f, g, k, route_prefixed) at e))
          | inl k ↦
              let (d, whole, slash) = split_at-eq-some (λ c. c == b'/') rest first behind f in
              let is_slash : d ≡ b'/' = ground arith in
              let (same_host, same_out) =
                routed_injective (to_lower first) (b'/' ∷ behind) host out
                  (rw (f, g, k, route_prefixed) at e) in
              let (some_first, some_rest) =
                or-eq-false (bytes_eq first []) (bytes_eq behind []) g in
              by_prefix first behind
                (same
                  ∙ ap (λ s. codes "/_p/" ++ s) (whole ∙ ap (λ x. first ++ x ∷ behind) is_slash))
                (sym same_host) (ap h.allowf (sym same_host) ∙ k) some_first some_rest
                (sym same_out)
        ]
      ]
    ]

-- A request that is routed goes to the default host with its path as it is, if the path does not begin
-- with "/_p/"; or it goes to the host that the path names behind that, in lower case, which the host
-- test has passed, with the rest of the path, which is more than a slash.
pub route_upstream-IsRoute :
    (h : Handler) (path host out : Bytes)
    → route_upstream h path ≡ routed host out
    → IsRoute h path host out
unfolding route_upstream
route_upstream-IsRoute h path host out e = elim (Option-cases (cut_prefix (codes "/_p/") path)) [
  | inl f ↦
      let (same_host, same_out) =
        routed_injective (to_lower (trim h.default_host)) path host out
          (rw (f, route_upstream) at e) in
      by_default f (sym same_host) (sym same_out)
  | inr (rest, f) ↦
      IsRoute-route_prefixed h path rest host out (cut_prefix-eq-some (codes "/_p/") path rest f)
        (rw (f, route_upstream) at e)
]
