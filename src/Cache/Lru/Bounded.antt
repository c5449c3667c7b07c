-- ===== src/Cache/Lru/Bounded.antt =====
-- The table keeps its bound, its keys stay distinct, and what was put in last is found.
use pulsys.Common.{
  ℕ, suc, ◌≤◌, false, List, [], ◌∷◌, none, some, ltb, length, Bytes, bytes_eq, bytes_eq_iff, ◌≡◌,
  refl, ap, arith, inl, inr, Bool-cases, Option-cases,
}
use pulsys.Cache.Lru.{
  find, remove, move_to_front, get, drop_tail, push_front, add, get_or_add, delete,
}

module _ {ℓ} {V : Type ℓ} where
  -- The key is at none of the entries.
  abbrev pub IsFresh : Bytes → List (Bytes × V) → Type 0
  IsFresh k [] = Unit
  IsFresh k ((k', v) ∷ entries) = (bytes_eq k' k ≡ false) × IsFresh k entries

  -- No two entries have one key.
  abbrev pub HasDistinctKeys : List (Bytes × V) → Type 0
  HasDistinctKeys [] = Unit
  HasDistinctKeys ((k, v) ∷ entries) = IsFresh k entries × HasDistinctKeys entries

  length-remove :
      (k : Bytes) (v : V) (entries : List (Bytes × V))
      → find k entries ≡ some v
      → suc (length (remove k entries)) ≡ length entries
  unfolding find remove
  length-remove k v [] h = cc
  length-remove k v ((k', v') ∷ entries) h = elim (Bool-cases (bytes_eq k' k)) [
    | inl e ↦ rw e refl
    | inr e ↦ rw e (ap suc (length-remove k v entries (rw e at h)))
  ]

  IsFresh-of_find :
      (k : Bytes) (entries : List (Bytes × V)) → find k entries ≡ none → IsFresh k entries
  unfolding find
  IsFresh-of_find k [] h = tt
  IsFresh-of_find k ((k', v) ∷ entries) h = elim (Bool-cases (bytes_eq k' k)) [
    | inl e ↦ let found : some v ≡ none = rw e at h in cc
    | inr e ↦ (e, IsFresh-of_find k entries (rw e at h))
  ]

  IsFresh-remove :
      (j k : Bytes) (entries : List (Bytes × V)) → IsFresh j entries → IsFresh j (remove k entries)
  unfolding remove
  IsFresh-remove j k [] h = tt
  IsFresh-remove j k ((k', v) ∷ entries) h = elim (Bool-cases (bytes_eq k' k)) [
    | inl e ↦ rw e h.1
    | inr e ↦ rw e (h.0, IsFresh-remove j k entries h.1)
  ]

  -- The key that is taken out is gone.
  IsFresh-removed :
      (k : Bytes) (entries : List (Bytes × V))
      → HasDistinctKeys entries
      → IsFresh k (remove k entries)
  unfolding remove
  IsFresh-removed k [] h = tt
  IsFresh-removed k ((k', v) ∷ entries) h = elim (Bool-cases (bytes_eq k' k)) [
    | inl e ↦ let same = (bytes_eq_iff k' k).0 e in rw e (rw same at h.0)
    | inr e ↦ rw e (e, IsFresh-removed k entries h.1)
  ]

  HasDistinctKeys-remove :
      (k : Bytes) (entries : List (Bytes × V))
      → HasDistinctKeys entries
      → HasDistinctKeys (remove k entries)
  unfolding remove
  HasDistinctKeys-remove k [] h = tt
  HasDistinctKeys-remove k ((k', v) ∷ entries) h = elim (Bool-cases (bytes_eq k' k)) [
    | inl e ↦ rw e h.1
    | inr e ↦ rw e (IsFresh-remove k' k entries h.0, HasDistinctKeys-remove k entries h.1)
  ]

  HasDistinctKeys-move_to_front :
      (k : Bytes) (v : V) (entries : List (Bytes × V))
      → HasDistinctKeys entries
      → HasDistinctKeys (move_to_front k v entries)
  unfolding move_to_front
  HasDistinctKeys-move_to_front k v entries h =
      (IsFresh-removed k entries h, HasDistinctKeys-remove k entries h)

  IsFresh-drop_tail :
      (j : Bytes) (e : Bytes × V) (entries : List (Bytes × V))
      → IsFresh j (e ∷ entries)
      → IsFresh j (drop_tail e entries).0
  unfolding drop_tail
  IsFresh-drop_tail j e [] h = tt
  IsFresh-drop_tail j e (f ∷ entries) h = (h.0, IsFresh-drop_tail j f entries h.1)

  HasDistinctKeys-drop_tail :
      (e : Bytes × V) (entries : List (Bytes × V))
      → HasDistinctKeys (e ∷ entries)
      → HasDistinctKeys (drop_tail e entries).0
  unfolding drop_tail
  HasDistinctKeys-drop_tail e [] h = tt
  HasDistinctKeys-drop_tail e (f ∷ entries) h =
      (IsFresh-drop_tail e.0 f entries h.0, HasDistinctKeys-drop_tail f entries h.1)

  length-drop_tail :
      (e : Bytes × V) (entries : List (Bytes × V)) → length (drop_tail e entries).0 ≡ length entries
  unfolding drop_tail
  length-drop_tail e [] = refl
  length-drop_tail e (f ∷ entries) = ap suc (length-drop_tail f entries)

  -- The keys are distinct, and there are at most so many.
  abbrev pub IsTable : ℕ → List (Bytes × V) → Type 0
  IsTable capacity entries = HasDistinctKeys entries × (length entries ≤ capacity)

  IsTable-move_to_front :
      (capacity : ℕ) (k : Bytes) (v old : V) (entries : List (Bytes × V))
      → IsTable capacity entries
      → find k entries ≡ some old
      → IsTable capacity (move_to_front k v entries)
  unfolding move_to_front
  IsTable-move_to_front capacity k v old entries h found =
      let size = length-remove k old entries found in
      (HasDistinctKeys-move_to_front k v entries h.0, omega (arith, h.1, size))

  IsTable-push_front :
      (capacity : ℕ) (k : Bytes) (v : V) (entries : List (Bytes × V))
      → IsTable capacity entries
      → find k entries ≡ none
      → IsTable capacity (push_front capacity (k, v) entries).0
  unfolding push_front
  IsTable-push_front capacity k v entries h missing =
      let distinct : HasDistinctKeys ((k, v) ∷ entries) =
        (IsFresh-of_find k entries missing, h.0) in
      elim (Bool-cases (ltb capacity (suc (length entries)))) [
        | inl e ↦
            let size = length-drop_tail (k, v) entries in
            rw e (HasDistinctKeys-drop_tail (k, v) entries distinct, omega (arith, h.1, size))
        | inr e ↦ rw e (distinct, ground arith)
      ]

  -- `Get`, `Add`, `GetOrAdd` and `Delete` keep the keys distinct and their number within the capacity.
  pub IsTable-calls :
      (capacity : ℕ) (k : Bytes) (v : V) (entries : List (Bytes × V))
      → IsTable capacity entries
      → IsTable capacity (get k entries).0
        × IsTable capacity (add capacity k v entries).0
        × IsTable capacity (get_or_add capacity k v entries).0.0
        × IsTable capacity (delete k entries).0
  unfolding get add get_or_add delete
  IsTable-calls capacity k v entries h = elim (Option-cases (find k entries)) [
    | inl e ↦
        let pushed = IsTable-push_front capacity k v entries h e in
        rw (e, get, add, get_or_add, delete) (h, pushed, pushed, h)
    | inr (old, e) ↦
        let size = length-remove k old entries e in
        rw (e, get, add, get_or_add, delete)
          (
            IsTable-move_to_front capacity k old old entries h e,
            IsTable-move_to_front capacity k v old entries h e,
            IsTable-move_to_front capacity k old old entries h e,
            (HasDistinctKeys-remove k entries h.0, omega (arith, h.1, size)),
          )
  ]
