-- ===== src/Cache/Owners/Ordered.antt =====
-- The owners of an object stay sorted, without doubles and bounded in number, and none is lost.
use pulsys.Common.{
  suc, ◌≤◌, ◌<◌, true, false, List, [], ◌∷◌, leb, length, Bytes, bytes_eq, bytes_eq_iff, ◌≡◌, ◌≢◌,
  refl, ap, arith, inl, inr, ◌⊎◌, Bool-cases, Any,
}
use pulsys.Cache.Owners.{max_origin_paths, bytes_less, has_owner, insert_owner, append_owner}

-- Each entry is less than the next one.
abbrev pub IsOrdered : List Bytes → Type 0
IsOrdered [] = Unit
IsOrdered (a ∷ []) = Unit
IsOrdered (a ∷ b ∷ rest) = (bytes_less a b ≡ true) × IsOrdered (b ∷ rest)

-- Strings of which neither is less are equal.
less_total : (s t : Bytes) → bytes_less s t ≡ false → bytes_less t s ≡ false → s ≡ t
unfolding bytes_less
less_total [] [] h k = refl
less_total [] (d ∷ t) h k = cc
less_total (c ∷ s) [] h k = cc
less_total (c ∷ s) (d ∷ t) h k =
    let same : c ≡ d = ground arith in
    let rest = less_total s t (ground arith) (ground arith) in rw (same, rest) refl

less_of_new :
    (o owner : Bytes)
    → bytes_less o owner ≡ false
    → bytes_eq o owner ≡ false
    → bytes_less owner o ≡ true
less_of_new o owner h new = elim (Bool-cases (bytes_less owner o)) [
  | inl e ↦ e
  | inr e ↦
      let same = less_total o owner h e in let equal = (bytes_eq_iff o owner).1 same in absurd (cc)
]

-- An entry in front of the owners stays in front of the new one.
IsOrdered-insert_behind :
    (a : Bytes) (owners : List Bytes) (owner : Bytes)
    → bytes_less a owner ≡ true
    → IsOrdered (a ∷ owners)
    → has_owner owners owner ≡ false
    → IsOrdered (a ∷ insert_owner owners owner)
unfolding has_owner insert_owner
IsOrdered-insert_behind a [] owner less h new = (less, tt)
IsOrdered-insert_behind a (o ∷ owners) owner less h new = elim (Bool-cases (bytes_less o owner)) [
  | inl e ↦
      let rest = IsOrdered-insert_behind o owners owner e h.1 (ground arith) in rw e (h.0, rest)
  | inr e ↦ let first = less_of_new o owner e (ground arith) in rw e (less, (first, h.1))
]

IsOrdered-insert_owner :
    (owners : List Bytes) (owner : Bytes)
    → IsOrdered owners
    → has_owner owners owner ≡ false
    → IsOrdered (insert_owner owners owner)
unfolding has_owner insert_owner
IsOrdered-insert_owner [] owner h new = tt
IsOrdered-insert_owner (o ∷ owners) owner h new = elim (Bool-cases (bytes_less o owner)) [
  | inl e ↦ rw e (IsOrdered-insert_behind o owners owner e h (ground arith))
  | inr e ↦ rw e (less_of_new o owner e (ground arith), h)
]

length-insert_owner :
    (owners : List Bytes) (owner : Bytes) → length (insert_owner owners owner) ≡ suc (length owners)
unfolding insert_owner
length-insert_owner [] owner = refl
length-insert_owner (o ∷ owners) owner = elim (Bool-cases (bytes_less o owner)) [
  | inl e ↦ rw e (ap suc (length-insert_owner owners owner))
  | inr e ↦ rw e refl
]

-- The owners after the insertion: those before, and the new one.
abbrev pub Owns : Bytes → List Bytes → Type 0
Owns owner = Any (λ o. o ≡ owner)

Owns-insert_owner :
    (owners : List Bytes) (owner o : Bytes)
    → Owns o owners ⊎ (owner ≡ o)
    → Owns o (insert_owner owners owner)
unfolding insert_owner
Owns-insert_owner [] owner o (inr e) = inl e
Owns-insert_owner [] owner o (inl e) = absurd e
Owns-insert_owner (p ∷ owners) owner o (inl (inl same)) = elim (Bool-cases (bytes_less p owner)) [
  | inl e ↦ rw e (inl same)
  | inr e ↦ rw e (inr (inl same))
]
Owns-insert_owner (p ∷ owners) owner o (inl (inr more)) = elim (Bool-cases (bytes_less p owner)) [
  | inl e ↦ rw e (inr (Owns-insert_owner owners owner o (inl more)))
  | inr e ↦ rw e (inr (inr more))
]
Owns-insert_owner (p ∷ owners) owner o (inr new) = elim (Bool-cases (bytes_less p owner)) [
  | inl e ↦ rw e (inr (Owns-insert_owner owners owner o (inr new)))
  | inr e ↦ rw e (inl new)
]

Owns-of_has_owner :
    (owners : List Bytes) (owner : Bytes) → has_owner owners owner ≡ true → Owns owner owners
unfolding has_owner
Owns-of_has_owner [] owner h = cc
Owns-of_has_owner (o ∷ owners) owner h = elim (Bool-cases (bytes_less o owner)) [
  | inl e ↦ inr (Owns-of_has_owner owners owner (ground arith))
  | inr e ↦ inl ((bytes_eq_iff o owner).0 (ground arith))
]

-- What `appendOwner` keeps: the order without doubles, at most 64 owners, every owner that was there,
-- and the new one if there was room for it.
pub record IsOwnersAfter (before : List Bytes) (owner : Bytes) (now : List Bytes) : Type 0 where
  pub ordered : IsOrdered now
  pub bounded : length now ≤ max_origin_paths
  pub kept : (o : Bytes) → Owns o before → Owns o now
  pub added : owner ≢ [] → length before < max_origin_paths → Owns owner now

-- From owners that are ordered, without doubles and at most 64, `appendOwner` gives such owners again;
-- it loses none of them, and adds the new one if it is not empty and there are fewer than 64.
pub append_owner-IsOwnersAfter :
    (owners : List Bytes) (owner : Bytes)
    → IsOrdered owners
    → length owners ≤ max_origin_paths
    → IsOwnersAfter owners owner (append_owner owners owner)
unfolding append_owner
append_owner-IsOwnersAfter owners [] h bound = record {
  ordered = h;
  bounded = bound;
  kept = λ o k. k;
  added = λ ne room. absurd (ne refl);
}
append_owner-IsOwnersAfter owners (c ∷ s) h bound = elim (Bool-cases (has_owner owners (c ∷ s))) [
  | inl e ↦ rw e (record {
    ordered = h;
    bounded = bound;
    kept = λ o k. k;
    added = λ ne room. Owns-of_has_owner owners (c ∷ s) e;
  })
  | inr e ↦ elim (Bool-cases (leb max_origin_paths (length owners))) [
    | inl f ↦
        rw (e, f)
          (record {
            ordered = h;
            bounded = bound;
            kept = λ o k. k;
            added = λ ne room. absurd (ground arith);
          })
    | inr f ↦
        rw (e, f)
          (record {
            ordered = IsOrdered-insert_owner owners (c ∷ s) h e;
            bounded = rw (length-insert_owner owners (c ∷ s)) (ground arith);
            kept = λ o k. Owns-insert_owner owners (c ∷ s) o (inl k);
            added = λ ne room. Owns-insert_owner owners (c ∷ s) (c ∷ s) (inr refl);
          })
  ]
]
