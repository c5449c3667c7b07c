-- ===== src/Models/Purged.antt =====
-- What the purge of a model leaves of it.
use pulsys.Common.{
  suc, Bool, true, false, not, List, [], ◌∷◌, some, if◌then◌else◌, Bytes, ◌≡◌, refl, ap, ◌∙◌, ◌⊎◌,
  All, Bool-cases, inl, inr,
}
use pulsys.Cache.Meta.{Meta}
use pulsys.Cache.Quota.{Counters}
use pulsys.Cache.Store.{
  Store, PurgeResult, Purged, Decision, keep, trim, remove, forget_object, count_removed,
  purge_loop, purge_or_trim, nothing_purged,
}
use pulsys.Models.{matches, owned_by, remove_owner, has_any_owner, purge_decision, purge_model}
use pulsys.Models.Owners.{remove_owner-owned_by}

-- The model does not own the object, unless by the object's own path.
abbrev pub IsGiven : Bytes → Bytes → Bytes × Meta → Type 0
IsGiven org name (key, m) = (owned_by m org name ≡ false) ⊎ (matches m.path org name ≡ true)

path-removed :
    (m : Meta) (org name : Bytes)
    → matches (remove_owner m org name).path org name ≡ matches m.path org name
unfolding remove_owner
path-removed m org name = refl

IsGiven-removed :
    (org name key : Bytes) (m : Meta) → IsGiven org name (key, remove_owner m org name)
IsGiven-removed org name key m =
    let owned = (remove_owner-owned_by m org name).0 in
    elim (Bool-cases (matches m.path org name)) [
      | inl e ↦ inr (path-removed m org name ∙ e)
      | inr e ↦ inl (owned ∙ e)
    ]

-- What a walk ends with.
record Given (org name : Bytes) (p : Purged) : Type 0 where
  each : All (IsGiven org name) p.left
  is_finished : p.finished ≡ true

not_taken : (b : Bool) (x y : Decision) → b ≡ true → (if b then x else y) ≡ x
not_taken true x y h = refl
not_taken false x y h = cc

taken : (b : Bool) (x y : Decision) → b ≡ false → (if b then x else y) ≡ y
taken true x y h = cc
taken false x y h = refl

decided :
    (org name key : Bytes) (m : Meta)
    → ((purge_decision org name key m ≡ keep) × (owned_by m org name ≡ false))
      ⊎ ((purge_decision org name key m ≡ remove)
          ⊎ (purge_decision org name key m ≡ trim (some (remove_owner m org name))))
unfolding purge_decision
decided org name key m = elim (Bool-cases (owned_by m org name)) [
  | inr e ↦ inl (not_taken _ _ _ (ap not e), e)
  | inl e ↦ elim (Bool-cases (has_any_owner (remove_owner m org name))) [
    | inr f ↦ inr (inl (taken _ _ _ (ap not e) ∙ not_taken _ _ _ (ap not f)))
    | inl f ↦ inr (inr (taken _ _ _ (ap not e) ∙ taken _ _ _ (ap not f)))
  ]
]

Given-purge_loop :
    (org name : Bytes) (objects : List (Bytes × Meta)) (c : Counters) (res : PurgeResult)
    → Given org name (purge_loop (purge_decision org name) objects c res)
unfolding purge_loop
Given-purge_loop org name [] c res = record { each = tt; is_finished = refl }
Given-purge_loop org name ((k, m) ∷ rest) c res = elim (decided org name k m) [
  | inl (e, f) ↦
      let more = Given-purge_loop org name rest c res in
      record {
        each = rw (e, purge_loop) (inl f, more.each);
        is_finished = rw (e, purge_loop) more.is_finished;
      }
  | inr (inl e) ↦
      let more =
        Given-purge_loop org name rest (forget_object c m.total) (count_removed res m.total) in
      record {
        each = rw (e, purge_loop) more.each;
        is_finished = rw (e, purge_loop) more.is_finished;
      }
  | inr (inr e) ↦
      let more = Given-purge_loop org name rest c (record res { trimmed = suc res.trimmed }) in
      record {
        each = rw (e, purge_loop) (IsGiven-removed org name k m, more.each);
        is_finished = rw (e, purge_loop) more.is_finished;
      }
]

-- After the purge of a model, which walks over the whole store, the model owns none of the objects that
-- are left, in their metadata as they then are, but those whose own path names it.
pub purge_model-IsGiven :
    (st : Store) (org name : Bytes)
    → All (IsGiven org name) (purge_model st org name).0.objects
      × ((purge_model st org name).2 ≡ true)
unfolding purge_model purge_or_trim
purge_model-IsGiven st org name =
    let walk = Given-purge_loop org name st.objects st.counters nothing_purged in
    (walk.each, walk.is_finished)
