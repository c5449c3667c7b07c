-- ===== src/Cache/Writer/Reserved.antt =====
-- The quota that a writer holds, from its beginning to its end.
use pulsys.Common.{
  ℕ, zero, suc, ◌+◌, ◌-◌, ◌<◌, ◌≤◌, two63, Bool, true, false, Option, some, ◌≡◌, refl, ap, ◌∙◌,
  arith, ℤ, pos, negsuc, ◌-ℤ◌, ltbℤ, lebℤ, wrap64, wrap64_small, Bool-cases, inl, inr,
}
use pulsys.Cache.Meta.{Meta}
use pulsys.Cache.Quota.{Counters, release_reservation, account_meta_transition}
use pulsys.Cache.Store.{Store, publish_meta}
use pulsys.Cache.Writer.{SegmentWriter, Writing, release_reserved, publish}

-- The store's reservations are those of others and the writer's own, which is at most the bound; the
-- quota has a limit.
pub record Holding (cl : Bool) (others bound : ℕ) (s : Writing) : Type 0 where
  pub own : ℕ
  pub is_total : s.0.counters.reserved_bytes ≡ pos (others + own)
  pub is_own : s.1.reserved ≡ pos own
  pub is_bounded : own ≤ bound
  pub is_limited : ltbℤ (pos 0) s.0.counters.max_bytes ≡ true
  pub is_state : s.1.closed ≡ cl

pub sub-pos : (a b : ℕ) → b ≤ a → a < two63 → wrap64 (pos a -ℤ pos b) ≡ pos (a - b)
sub-pos a b h k =
    let difference : pos a -ℤ pos b ≡ pos (a - b) = ground arith in
    ap wrap64 difference ∙ wrap64_small (a - b) (omega arith)

-- Part of what the writer holds is given back.
released :
    (cl : Bool) (others bound m : ℕ) (z : ℤ) (st : Store) (w : SegmentWriter)
    → others + bound < two63
    → 0 < m
    → z ≡ pos m
    → (h : Holding cl others bound (st, w)) → m ≤ h.own
    → Holding cl others bound (
      record st { counters = release_reservation st.counters z },
      record w { reserved = wrap64 (w.reserved -ℤ z) },
    )
unfolding release_reservation
released cl others bound m z st w fits some_bytes same h le =
    let positive : lebℤ z (pos 0) ≡ false = rw same (ground arith) in
    let less : others + h.own - m ≡ others + (h.own - m) = omega arith in
    let total =
      sub-pos (others + h.own) m (omega arith) (omega (arith, h.is_bounded, fits)) ∙ ap pos less in
    record {
      own = h.own - m;
      is_total = rw (positive, h.is_total, same) total;
      is_own = rw (h.is_own, same) (sub-pos h.own m le (omega (arith, h.is_bounded, fits)));
      is_bounded = omega (arith, h.is_bounded);
      is_limited = rw positive h.is_limited;
      is_state = h.is_state;
    }

own-positive : (own : ℕ) (z : ℤ) → z ≡ pos own → lebℤ z (pos 0) ≡ false → 0 < own
own-positive own z same h = let test : lebℤ (pos own) (pos 0) ≡ false = rw same at h in ground arith

pub Holding-release_reserved :
    (cl : Bool) (others bound : ℕ) (n : ℤ) (st : Store) (w : SegmentWriter)
    → others + bound < two63
    → Holding cl others bound (st, w)
    → Holding cl others bound (release_reserved (st, w) n)
unfolding release_reserved
Holding-release_reserved cl others bound (negsuc k) st w fits h =
    let negative : lebℤ (negsuc k) (pos 0) ≡ true = ground arith in rw negative h
Holding-release_reserved cl others bound (pos zero) st w fits h = h
Holding-release_reserved cl others bound (pos (suc k)) st w fits h =
    let positive : lebℤ (pos (suc k)) (pos 0) ≡ false = ground arith in
    elim (Bool-cases (lebℤ w.reserved (pos 0))) [
      | inl e ↦ rw (positive, e) h
      | inr e ↦
          let some_bytes = own-positive h.own w.reserved h.is_own e in
          elim (Bool-cases (ltbℤ w.reserved (pos (suc k)))) [
            | inl f ↦
                rw (positive, e, f)
                  (released cl others bound h.own w.reserved st w fits some_bytes h.is_own h
                    (omega arith))
            | inr f ↦
                let test : ltbℤ (pos h.own) (pos (suc k)) ≡ false = rw h.is_own at f in
                rw (positive, e, f)
                  (released cl others bound (suc k) (pos (suc k)) st w fits (omega arith) refl h
                    (ground arith))
          ]
    ]

-- What changes neither the reservations nor the limit.
pub Holding-same :
    (cl : Bool) (others bound : ℕ) (st st' : Store) (w w' : SegmentWriter)
    → st'.counters.reserved_bytes ≡ st.counters.reserved_bytes
    → st'.counters.max_bytes ≡ st.counters.max_bytes
    → w'.reserved ≡ w.reserved
    → w'.closed ≡ w.closed
    → Holding cl others bound (st, w)
    → Holding cl others bound (st', w')
Holding-same cl others bound st st' w w' reservations limit own state h = record {
  own = h.own;
  is_total = reservations ∙ h.is_total;
  is_own = own ∙ h.is_own;
  is_bounded = h.is_bounded;
  is_limited = rw limit h.is_limited;
  is_state = state ∙ h.is_state;
}

account-counters :
    (c : Counters) (t : ℤ) (e : Bool) (m : Option Meta)
    → ((account_meta_transition c t e m).0.reserved_bytes ≡ c.reserved_bytes)
      × ((account_meta_transition c t e m).0.max_bytes ≡ c.max_bytes)
unfolding account_meta_transition
account-counters c t e m = elim (Bool-cases (lebℤ c.max_bytes (pos 0))) [
  | inl f ↦ (rw f refl, rw f refl)
  | inr f ↦ (rw f refl, rw f refl)
]

pub Holding-publish :
    (cl : Bool) (others bound : ℕ) (m : Meta) (st : Store) (w : SegmentWriter)
    → others + bound < two63
    → Holding cl others bound (st, w)
    → Holding cl others bound (publish (st, w) m)
unfolding publish publish_meta
Holding-publish cl others bound m st w fits h =
    let (reservations, limit) = account-counters st.counters _ _ (some m) in
    Holding-release_reserved cl others bound (publish_meta st w.key m).1 (publish_meta st w.key m).0
      w fits
      (Holding-same cl others bound st (publish_meta st w.key m).0 w w reservations limit refl refl
        h)
