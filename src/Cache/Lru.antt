-- ===== src/Cache/Lru.antt =====
-- internal/cache/lru.go: the bounded table of the store, as the list of its entries from the one most
-- recently used to the one least recently used. The map from keys to entries and the links between
-- them are this list; the mutex makes each operation one step. The callback for a removed entry is the
-- entry in the result.
pub mod Bounded
use pulsys.Common.{
  ℕ, zero, suc, Bool, true, false, List, [], ◌∷◌, Option, none, some, if◌then◌else◌, ltb, length,
  Bytes, bytes_eq,
}

-- `newLRU` sets a capacity of at least 1.
unfoldable pub new_capacity : ℕ → ℕ
new_capacity zero = 1
new_capacity (suc n) = suc n

module _ {ℓ} {V : Type ℓ} where
  unfoldable pub find : Bytes → List (Bytes × V) → Option V
  find k [] = none
  find k ((k', v) ∷ entries) = let rest = find k entries in if bytes_eq k' k then some v else rest

  -- `removeLocked`, of the entry with this key.
  unfoldable pub remove : Bytes → List (Bytes × V) → List (Bytes × V)
  remove k [] = []
  remove k ((k', v) ∷ entries) =
      let rest = remove k entries in if bytes_eq k' k then entries else (k', v) ∷ rest

  -- `moveToFrontLocked`, of the entry with this key, which gets the value.
  unfoldable pub move_to_front : Bytes → V → List (Bytes × V) → List (Bytes × V)
  unfolding remove
  move_to_front k v entries = (k, v) ∷ remove k entries

  unfoldable pub get : Bytes → List (Bytes × V) → List (Bytes × V) × Option V
  unfolding find move_to_front
  get k entries = elim (find k entries) [
    | none ↦ (entries, none)
    | some v ↦ (move_to_front k v entries, some v)
  ]

  -- The entries without the last one, and the last one.
  unfoldable pub drop_tail : Bytes × V → List (Bytes × V) → List (Bytes × V) × (Bytes × V)
  drop_tail e [] = ([], e)
  drop_tail e (f ∷ entries) = let rest = drop_tail f entries in (e ∷ rest.0, rest.1)

  -- Puts a new entry in front, and removes the last one if there are too many.
  unfoldable pub push_front :
      ℕ → Bytes × V → List (Bytes × V) → List (Bytes × V) × Option (Bytes × V)
  unfolding drop_tail
  push_front capacity e entries =
      let kept = drop_tail e entries in
      if ltb capacity (suc (length entries)) then (kept.0, some kept.1) else (e ∷ entries, none)

  unfoldable pub add : ℕ → Bytes → V → List (Bytes × V) → List (Bytes × V) × Option (Bytes × V)
  unfolding find move_to_front push_front
  add capacity k v entries = elim (find k entries) [
    | some _ ↦ (move_to_front k v entries, none)
    | none ↦ push_front capacity (k, v) entries
  ]

  -- The value under the key behind the call, and whether it was there before.
  unfoldable pub get_or_add :
      ℕ → Bytes → V → List (Bytes × V) → (List (Bytes × V) × Option (Bytes × V)) × (V × Bool)
  unfolding find move_to_front push_front
  get_or_add capacity k v entries = elim (find k entries) [
    | some old ↦ ((move_to_front k old entries, none), (old, true))
    | none ↦ (push_front capacity (k, v) entries, (v, false))
  ]

  unfoldable pub delete : Bytes → List (Bytes × V) → List (Bytes × V) × Option (Bytes × V)
  unfolding find remove
  delete k entries = elim (find k entries) [
    | none ↦ (entries, none)
    | some v ↦ (remove k entries, some (k, v))
  ]
