-- ===== src/Models/Owners.antt =====
-- What is left of an object's owners when one is removed.
use pulsys.Common.{
  Bool, true, false, ◌||◌, ◌&&◌, List, [], ◌∷◌, if◌then◌else◌, Bytes, bytes_eq, bytes_eq_iff, ◌≡◌,
  refl, ap, sym, ◌∙◌, Bool-cases, Option-cases, inl, inr, and-eq-true,
}
use pulsys.Cache.Meta.{Meta}
use pulsys.Models.{
  parse_hf_model_path, matches, any_matches, owned_by, other_owners, first_owner, remove_owner,
}

any_matches-other_owners :
    (ops : List Bytes) (org name : Bytes) → any_matches (other_owners ops org name) org name ≡ false
unfolding any_matches other_owners
any_matches-other_owners [] org name = refl
any_matches-other_owners (op ∷ rest) org name = elim (Bool-cases (matches op org name)) [
  | inl e ↦ rw (e, other_owners) (any_matches-other_owners rest org name)
  | inr e ↦ rw (e, other_owners) (rw (e, any_matches) (any_matches-other_owners rest org name))
]

-- Two owners are apart when they differ in the organisation or the name.
abbrev pub AreApart : Bytes → Bytes → Bytes → Bytes → Type 0
AreApart org name org' name' = (bytes_eq org org' && bytes_eq name name') ≡ false

matches-apart :
    (op org name org' name' : Bytes)
    → AreApart org name org' name'
    → matches op org name ≡ true
    → matches op org' name' ≡ false
unfolding matches
matches-apart op org name org' name' apart h = elim (Bool-cases (bytes_eq op [])) [
  | inl e ↦ rw e refl
  | inr e ↦ elim (Option-cases (parse_hf_model_path op)) [
    | inl f ↦ rw (e, f) refl
    | inr (m, f) ↦
        let both : (bytes_eq m.org org && bytes_eq m.name name) ≡ true = rw (e, f, matches) at h in
        let (same_org, same_name) = and-eq-true (bytes_eq m.org org) _ both in
        let o = (bytes_eq_iff m.org org).0 same_org in
        let n = (bytes_eq_iff m.name name).0 same_name in rw (e, f, o, n) apart
  ]
]

any_matches-apart :
    (ops : List Bytes) (org name org' name' : Bytes)
    → AreApart org name org' name'
    → any_matches (other_owners ops org name) org' name' ≡ any_matches ops org' name'
unfolding any_matches other_owners
any_matches-apart [] org name org' name' apart = refl
any_matches-apart (op ∷ rest) org name org' name' apart =
    let more = any_matches-apart rest org name org' name' apart in
    elim (Bool-cases (matches op org name)) [
      | inl e ↦
          let other = matches-apart op org name org' name' apart e in
          rw (e, other_owners) (rw (other, any_matches) more)
      | inr e ↦ rw (e, other_owners) (ap (λ b. matches op org' name' || b) more)
    ]

or_twice : (b r : Bool) → (b || (b || r)) ≡ (b || r)
or_twice true r = refl
or_twice false r = refl

or_assoc : (a b c : Bool) → (a || (b || c)) ≡ ((a || b) || c)
or_assoc true b c = refl
or_assoc false b c = refl

-- The first of the owners is one of them.
any_matches-first_owner :
    (ops : List Bytes) (org name : Bytes)
    → (matches (first_owner ops) org name || any_matches ops org name) ≡ any_matches ops org name
unfolding first_owner any_matches matches
any_matches-first_owner [] org name = refl
any_matches-first_owner (op ∷ rest) org name = or_twice (matches op org name) _

gone_if :
    (b : Bool) (first op org name : Bytes) (any path : Bool)
    → matches op org name ≡ b
    → any ≡ false
    → (matches first org name || any) ≡ any
    → (matches (if b then first else op) org name || (any || path)) ≡ path
gone_if true first op org name any path same gone promoted =
    or_assoc (matches first org name) any path ∙ ap (λ c. c || path) (promoted ∙ gone)
gone_if false first op org name any path same gone promoted =
    ap (λ c. c || (any || path)) same ∙ ap (λ c. c || path) gone

kept_if :
    (b : Bool) (first op org name : Bytes) (any any' path : Bool)
    → (b ≡ true → matches op org name ≡ false)
    → any ≡ any'
    → (matches first org name || any) ≡ any
    → (matches (if b then first else op) org name || (any || path))
      ≡ (matches op org name || (any' || path))
kept_if true first op org name any any' path other same promoted =
    or_assoc (matches first org name) any path
    ∙ ap (λ c. c || path) (promoted ∙ same)
    ∙ sym (ap (λ c. c || (any' || path)) (other refl))
kept_if false first op org name any any' path other same promoted =
    ap (λ c. matches op org name || (c || path)) same

owned_by-removed :
    (m : Meta) (org name : Bytes)
    → owned_by (remove_owner m org name) org name ≡ matches m.path org name
unfolding owned_by remove_owner
owned_by-removed m org name =
    let others = other_owners m.origin_paths org name in
    gone_if (matches m.origin_path org name) (first_owner others) m.origin_path org name
      (any_matches others org name) (matches m.path org name) refl
      (any_matches-other_owners m.origin_paths org name) (any_matches-first_owner others org name)

owned_by-apart :
    (m : Meta) (org name org' name' : Bytes)
    → AreApart org name org' name'
    → owned_by (remove_owner m org name) org' name' ≡ owned_by m org' name'
unfolding owned_by remove_owner
owned_by-apart m org name org' name' apart =
    let others = other_owners m.origin_paths org name in
    kept_if (matches m.origin_path org name) (first_owner others) m.origin_path org' name'
      (any_matches others org' name') (any_matches m.origin_paths org' name')
      (matches m.path org' name') (matches-apart m.origin_path org name org' name' apart)
      (any_matches-apart m.origin_paths org name org' name' apart)
      (any_matches-first_owner others org' name')

-- When an owner is removed from an object's metadata, it owns the object only if the object's own
-- path names it, and every other owner, of another organisation or another name, owns it as before.
pub remove_owner-owned_by :
    (m : Meta) (org name : Bytes)
    → (owned_by (remove_owner m org name) org name ≡ matches m.path org name)
      × ((org' name' : Bytes)
          → AreApart org name org' name'
          → owned_by (remove_owner m org name) org' name' ≡ owned_by m org' name')
remove_owner-owned_by m org name =
    (owned_by-removed m org name, λ org' name' apart. owned_by-apart m org name org' name' apart)
