-- ===== src/Cache/Store/Aliases.antt =====
-- What an alias and a redirect do to the store, and what an alias survives.
use pulsys.Common.{
  Bool, true, false, not, ◌||◌, ◌&&◌, List, [], ◌∷◌, some, if◌then◌else◌, Bytes, bytes_eq,
  bytes_eq_iff, ◌≡◌, refl, ap, sym, ◌∙◌, Bool-cases, inl, inr, ℤ, some_injective, guard-eq-some,
}
use pulsys.Cache.Meta.{Meta}
use pulsys.Cache.Segment.{SegmentParams, commit_meta, start_meta, add_origin}
use pulsys.Cache.Store.{
  Store, lookup_object, put_object, load_meta, publish_meta, alias_meta, is_concrete, store_alias,
}

apart : (k k' x : Bytes) → bytes_eq k x ≡ false → bytes_eq k' x ≡ true → bytes_eq k' k ≡ false
apart k k' x h same = elim (Bool-cases (bytes_eq k' k)) [
  | inr e ↦ e
  | inl e ↦
      let equal =
        (bytes_eq_iff k x).1 (sym ((bytes_eq_iff k' k).0 e) ∙ (bytes_eq_iff k' x).0 same) in
      cc
]

pub lookup_object-put_object :
    (k k' : Bytes) (m : Meta) (l : List (Bytes × Meta))
    → lookup_object k' (put_object k m l) ≡ (if bytes_eq k' k then some m else lookup_object k' l)
unfolding lookup_object put_object
lookup_object-put_object k k' m [] = refl
lookup_object-put_object k k' m ((x, n) ∷ l) = elim (Bool-cases (bytes_eq k x)) [
  | inl e ↦
      let same = (bytes_eq_iff k x).0 e in
      rw (e, put_object)
        (elim (Bool-cases (bytes_eq k' k)) [
          | inl f ↦ rw (f, lookup_object) refl
          | inr f ↦
              let g : bytes_eq k' x ≡ false = ap (bytes_eq k') (sym same) ∙ f in
              rw (f, g, lookup_object) refl
        ])
  | inr e ↦
      rw (e, put_object)
        (elim (Bool-cases (bytes_eq k' x)) [
          | inl f ↦ let g = apart k k' x e f in rw (f, g, lookup_object) refl
          | inr f ↦ rw (f, lookup_object) (lookup_object-put_object k k' m l)
        ])
]

pub load_meta-publish_meta :
    (st : Store) (k k' : Bytes) (m : Meta)
    → load_meta (publish_meta st k m).0 k' ≡ (if bytes_eq k' k then some m else load_meta st k')
unfolding load_meta publish_meta
load_meta-publish_meta st k k' m = lookup_object-put_object k k' m st.objects

unchanged_if :
    {A : Type 0} (b c : Bool) (x y z : A) → c ≡ false → z ≡ y → z ≡ (if b && c then x else y)
unchanged_if true true x y z e h = cc
unchanged_if true false x y z e h = h
unchanged_if false c x y z e h = h

changed_if :
    {A : Type 0} (b c : Bool) (x y z : A)
    → c ≡ true
    → z ≡ (if b then x else y)
    → z ≡ (if b && c then x else y)
changed_if true true x y z e h = h
changed_if true false x y z e h = cc
changed_if false c x y z e h = h

-- After an alias is stored without an error each key has what it had before, but for the alias key,
-- if it is not the canonical one and has no object of its own: that has the alias.
pub load_meta-store_alias :
    (st st' : Store) (alias_key canonical_key host path raw_query k : Bytes)
    → store_alias st alias_key canonical_key host path raw_query ≡ some st'
    → load_meta st' k ≡ (
        if bytes_eq k alias_key
          && (not (bytes_eq alias_key canonical_key) && not (is_concrete (load_meta st alias_key)))
        then some (alias_meta canonical_key host path raw_query)
        else load_meta st k)
unfolding store_alias load_meta
load_meta-store_alias st st' alias_key canonical_key host path raw_query k h =
    let (some_keys, h1) = guard-eq-some (bytes_eq alias_key [] || bytes_eq canonical_key []) _ h in
    elim (Bool-cases (bytes_eq alias_key canonical_key)) [
      | inl e ↦
          let same = some_injective st st' (rw e at h1) in
          unchanged_if (bytes_eq k alias_key) _ _ _ _ (rw e refl)
            (ap (λ s. load_meta s k) (sym same))
      | inr e ↦ elim (Bool-cases (is_concrete (load_meta st alias_key))) [
        | inl f ↦
            let same = some_injective st st' (rw (e, f) at h1) in
            unchanged_if (bytes_eq k alias_key) _ _ _ _ (rw (e, f) refl)
              (ap (λ s. load_meta s k) (sym same))
        | inr f ↦
            let m = alias_meta canonical_key host path raw_query in
            let same = some_injective (publish_meta st alias_key m).0 st' (rw (e, f) at h1) in
            changed_if (bytes_eq k alias_key) _ _ _ _ (rw (e, f) refl)
              (ap (λ s. load_meta s k) (sym same) ∙ load_meta-publish_meta st alias_key k m)
      ]
    ]

-- A commit leaves an alias one.
pub alias_of-commit_meta :
    (m : Meta) (p : SegmentParams) (written : ℤ)
    → (commit_meta (some m) p written).alias_of ≡ m.alias_of
unfolding commit_meta start_meta add_origin
alias_of-commit_meta m p written = refl
