-- ===== src/Cache/Store/Purges.antt =====
-- What a purge leaves.
use pulsys.Common.{
  ℕ, suc, ◌+◌, Bool, true, List, [], ◌∷◌, if◌then◌else◌, Option, ℤ, Bytes, ◌≡◌, refl, ap, ◌∙◌,
  Bool-cases, inl, inr, arith,
}
use pulsys.Cache.Meta.{Meta}
use pulsys.Cache.Quota.{Counters}
use pulsys.Cache.Store.{
  Store, PurgeResult, Purged, keep, remove, Decision, forget_object, count_removed, purge_loop,
  purge_or_trim, purge_keys, nothing_purged,
}

-- The objects that the test is false of.
abbrev pub spared : (Bytes → Meta → Bool) → List (Bytes × Meta) → List (Bytes × Meta)
spared pred [] = []
spared pred ((k, m) ∷ rest) = if pred k m then spared pred rest else (k, m) ∷ spared pred rest

-- The number of those that it is true of.
abbrev pub marked : (Bytes → Meta → Bool) → List (Bytes × Meta) → ℕ
marked pred [] = 0
marked pred ((k, m) ∷ rest) = (if pred k m then 1 else 0) + marked pred rest

-- What the walk over these objects ends with.
record WalkEnd (pred : Bytes → Meta → Bool) (objects : List (Bytes × Meta)) (res : PurgeResult)
    (p : Purged) : Type 0 where
  is_left : p.left ≡ spared pred objects
  is_purged : p.result.purged ≡ res.purged + marked pred objects
  is_trimmed : p.result.trimmed ≡ res.trimmed
  is_finished : p.finished ≡ true

abbrev decided : (Bytes → Meta → Bool) → Bytes → Meta → Decision
decided pred k m = if pred k m then remove else keep

purged-count_removed :
    (res : PurgeResult) (total : Option ℤ) → (count_removed res total).purged ≡ suc res.purged
unfolding count_removed
purged-count_removed res total = refl

trimmed-count_removed :
    (res : PurgeResult) (total : Option ℤ) → (count_removed res total).trimmed ≡ res.trimmed
unfolding count_removed
trimmed-count_removed res total = refl

WalkEnd-purge_loop :
    (pred : Bytes → Meta → Bool) (objects : List (Bytes × Meta)) (c : Counters) (res : PurgeResult)
    → WalkEnd pred objects res (purge_loop (decided pred) objects c res)
unfolding purge_loop
WalkEnd-purge_loop pred [] c res = record {
  is_left = refl;
  is_purged = omega arith;
  is_trimmed = refl;
  is_finished = refl;
}
WalkEnd-purge_loop pred ((k, m) ∷ rest) c res = elim (Bool-cases (pred k m)) [
  | inl e ↦
      let more =
        WalkEnd-purge_loop pred rest (forget_object c m.total) (count_removed res m.total) in
      let one = purged-count_removed res m.total in
      record {
        is_left = rw (e, purge_loop) more.is_left;
        is_purged = rw (e, purge_loop) (more.is_purged ∙ omega (arith, one));
        is_trimmed = rw (e, purge_loop) (more.is_trimmed ∙ trimmed-count_removed res m.total);
        is_finished = rw (e, purge_loop) more.is_finished;
      }
  | inr e ↦
      let more = WalkEnd-purge_loop pred rest c res in
      record {
        is_left = rw (e, purge_loop) (ap (◌∷◌ (k, m)) more.is_left);
        is_purged = rw (e, purge_loop) (more.is_purged ∙ omega arith);
        is_trimmed = rw (e, purge_loop) more.is_trimmed;
        is_finished = rw (e, purge_loop) more.is_finished;
      }
]

-- A purge walks over all of the store: it leaves just the objects that the test is false of, in their
-- order and unchanged, and counts one for each of the others, and no trim.
pub purge_keys-spared :
    (st : Store) (pred : Bytes → Meta → Bool)
    → ((purge_keys st pred).0.objects ≡ spared pred st.objects)
      × ((purge_keys st pred).1.purged ≡ marked pred st.objects)
      × ((purge_keys st pred).1.trimmed ≡ 0)
      × ((purge_keys st pred).2 ≡ true)
unfolding purge_keys purge_or_trim
purge_keys-spared st pred =
    let walk = WalkEnd-purge_loop pred st.objects st.counters nothing_purged in
    (walk.is_left, walk.is_purged ∙ omega arith, walk.is_trimmed, walk.is_finished)
