-- ===== src/Cache/Owners.antt =====
-- internal/cache/store.go: `appendOwner`, on a list that is sorted and without doubles. On such a list
-- the binary search of `sort.SearchStrings` finds the first entry that is not less than the owner, as
-- the search here does.
pub mod Ordered
use pulsys.Common.{
  ℕ, Bool, true, false, List, [], ◌∷◌, leb, ltb, ◌==◌, if◌then◌else◌, length, Bytes, bytes_eq,
}

abbrev pub max_origin_paths : ℕ
max_origin_paths = 64

-- The order of Go's strings, byte by byte.
unfoldable pub bytes_less : Bytes → Bytes → Bool
bytes_less [] [] = false
bytes_less [] (d ∷ t) = true
bytes_less (c ∷ s) [] = false
bytes_less (c ∷ s) (d ∷ t) = if ltb c d then true else if ltb d c then false else bytes_less s t

-- The first entry that is not less than the owner is the owner.
unfoldable pub has_owner : List Bytes → Bytes → Bool
unfolding bytes_less
has_owner [] owner = false
has_owner (o ∷ owners) owner =
    let rest = has_owner owners owner in if bytes_less o owner then rest else bytes_eq o owner

unfoldable pub insert_owner : List Bytes → Bytes → List Bytes
unfolding bytes_less
insert_owner [] owner = owner ∷ []
insert_owner (o ∷ owners) owner =
    let rest = insert_owner owners owner in
    if bytes_less o owner then o ∷ rest else owner ∷ o ∷ owners

unfoldable pub append_owner : List Bytes → Bytes → List Bytes
unfolding has_owner insert_owner
append_owner owners [] = owners
append_owner owners (c ∷ s) =
    if has_owner owners (c ∷ s)
    then owners
    else if leb max_origin_paths (length owners)
    then owners
    else insert_owner owners (c ∷ s)
