-- ===== src/Cache/Key/Collide.antt =====
-- Which requests share a cache key.
use pulsys.Common.{
  ℕ, Bool, true, not, [], ◌∷◌, ◌++◌, Bytes, trim, to_lower, to_upper, hex_encode, ◌≡◌, ◌≢◌, refl,
  sym, ap, ◌∙◌, append_assoc, all, ◌==◌, arith, and-eq-true,
}
use mathlib.Core.List.{append_cancel_left, append_cancel_right}
use pulsys.Cache.Key.{or_root, append_auth_bucket, key_material, key_hex}

abbrev pub not_bar : ℕ → Bool
not_bar c = not (c == b'|')

or_root_some : (path : Bytes) → path ≢ [] → or_root path ≡ path
unfolding or_root
or_root_some [] h = absurd (h refl)
or_root_some (c ∷ s) h = refl

append_some : (path more : Bytes) (c : ℕ) → path ++ c ∷ more ≢ []
append_some [] more c e = cc
append_some (d ∷ path) more c e = cc

module _ (sha256 : Bytes → Bytes) (method host auth : Bytes) where
  key_material_parts :
      (path query : Bytes)
      → key_material sha256 method host path query auth
        ≡ append_auth_bucket sha256
            (to_upper (trim method)
              ++ (b'|'
                  ∷ (to_lower (trim host)
                      ++ (b'|' ∷ (or_root (trim path) ++ (b'|' ∷ (query ++ b'|' ∷ [])))))))
            auth
  unfolding key_material
  key_material_parts path query = refl

  key_hex_material :
      (path query : Bytes)
      → key_hex sha256 method host path query auth
        ≡ hex_encode (sha256 (key_material sha256 method host path query auth))
  unfolding key_hex
  key_hex_material path query = refl

  key_material_collides :
      (path more query : Bytes)
      → path ≢ []
      → trim path ≡ path
      → trim (path ++ b'|' ∷ more) ≡ path ++ b'|' ∷ more
      → key_material sha256 method host (path ++ b'|' ∷ more) query auth
        ≡ key_material sha256 method host path (more ++ b'|' ∷ query) auth
  key_material_collides path more query some_path plain plain' =
      let joined : (path ++ b'|' ∷ more) ++ (b'|' ∷ (query ++ b'|' ∷ []))
          ≡ path ++ (b'|' ∷ ((more ++ b'|' ∷ query) ++ b'|' ∷ [])) =
        append_assoc path (b'|' ∷ more) _
        ∙ ap (λ t. path ++ b'|' ∷ t) (sym (append_assoc more (b'|' ∷ query) (b'|' ∷ []))) in
      rw
        (
          key_material_parts (path ++ b'|' ∷ more) query,
          key_material_parts path (more ++ b'|' ∷ query),
          plain',
          plain,
          or_root_some (path ++ b'|' ∷ more) (append_some path more b'|'),
          or_root_some path some_path,
          joined,
        )
        refl

  -- The separator of the key's parts may stand in a path and in a query, and no part is escaped or
  -- counted. So a path that is not empty, a `|` and more have the key of that path alone, with the rest
  -- in front of the query, if trimming changes neither path.
  pub key_hex_collides :
      (path more query : Bytes)
      → path ≢ []
      → trim path ≡ path
      → trim (path ++ b'|' ∷ more) ≡ path ++ b'|' ∷ more
      → key_hex sha256 method host (path ++ b'|' ∷ more) query auth
        ≡ key_hex sha256 method host path (more ++ b'|' ∷ query) auth
  key_hex_collides path more query some_path plain plain' =
      let same = key_material_collides path more query some_path plain plain' in
      key_hex_material (path ++ b'|' ∷ more) query
      ∙ ap (λ m. hex_encode (sha256 m)) same
      ∙ sym (key_hex_material path (more ++ b'|' ∷ query))

-- Behind parts without a bar, what follows the first bar is the same too.
cut_at_bar :
    (p q a b : Bytes)
    → all not_bar p ≡ true
    → all not_bar q ≡ true
    → p ++ b'|' ∷ a ≡ q ++ b'|' ∷ b
    → (p ≡ q) × (a ≡ b)
cut_at_bar [] [] a b hp hq e = (refl, cc)
cut_at_bar [] (d ∷ q) a b hp hq e = let same : b'|' ≡ d = cc in absurd (ground arith)
cut_at_bar (c ∷ p) [] a b hp hq e = let same : b'|' ≡ c = cc in absurd (ground arith)
cut_at_bar (c ∷ p) (d ∷ q) a b hp hq e =
    let same : c ≡ d = cc in
    let tails : p ++ b'|' ∷ a ≡ q ++ b'|' ∷ b = cc in
    let plain_p = (and-eq-true (not_bar c) (all not_bar p) hp).1 in
    let plain_q = (and-eq-true (not_bar d) (all not_bar q) hq).1 in
    let rest = cut_at_bar p q a b plain_p plain_q tails in (rw (same, rest.0) refl, rest.1)

module _ (sha256 : Bytes → Bytes) (method host auth : Bytes) where
  append_auth_bucket_cancel :
      (a b : Bytes) → append_auth_bucket sha256 a auth ≡ append_auth_bucket sha256 b auth → a ≡ b
  unfolding append_auth_bucket
  append_auth_bucket_cancel a b e = append_cancel_right a b _ e

  -- Without a `|` in the paths, what is hashed for a method, a host and credentials tells the path and
  -- the query: paths that are not empty and that trimming does not change.
  pub key_material_injective :
      (path path' query query' : Bytes)
      → path ≢ []
      → path' ≢ []
      → trim path ≡ path
      → trim path' ≡ path'
      → all not_bar path ≡ true
      → all not_bar path' ≡ true
      → key_material sha256 method host path query auth
        ≡ key_material sha256 method host path' query' auth
      → (path ≡ path') × (query ≡ query')
  key_material_injective path path' query query' some some' plain plain' clean clean' e =
      let parts =
        sym (key_material_parts sha256 method host auth path query)
        ∙ e
        ∙ key_material_parts sha256 method host auth path' query' in
      let whole = append_auth_bucket_cancel _ _ parts in
      let from_host =
        append_cancel_left (b'|' ∷ []) _ _
          (append_cancel_left (to_upper (trim method)) _ _ whole) in
      let from_path =
        append_cancel_left (b'|' ∷ []) _ _
          (append_cancel_left (to_lower (trim host)) _ _ from_host) in
      let rooted : path ++ (b'|' ∷ (query ++ b'|' ∷ [])) ≡ path' ++ (b'|' ∷ (query' ++ b'|' ∷ [])) =
        rw (plain, or_root_some path some, plain', or_root_some path' some') at from_path in
      let (same, queries) = cut_at_bar path path' _ _ clean clean' rooted in
      (same, append_cancel_right query query' (b'|' ∷ []) queries)
