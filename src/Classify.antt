-- ===== src/Classify.antt =====
-- internal/classify/classify.go: which client requests are for artifacts.
pub mod Fold
pub mod Rules
use pulsys.Common.{
  Bool, true, false, not, List, [], ◌∷◌, Option, none, some, if◌then◌else◌, Bytes, codes, bytes_eq,
  has_prefix, lower, trim, length, take, ltb, ◌==◌,
}

unfoldable pub equal_fold_ascii : Bytes → Bytes → Bool
equal_fold_ascii [] [] = true
equal_fold_ascii (a ∷ s) (b ∷ t) = if lower a == b then equal_fold_ascii s t else false
equal_fold_ascii _ _ = false

unfoldable pub contains_lower_prefix : Bytes → Bytes → Bool
unfolding equal_fold_ascii
contains_lower_prefix haystack prefix_lower =
    if ltb (length haystack) (length prefix_lower)
    then false
    else equal_fold_ascii (take (length prefix_lower) haystack) prefix_lower

-- The loop over the places that leave room for the needle, which is not empty.
unfoldable pub contains_from : Bytes → Bytes → Bool
unfolding equal_fold_ascii
contains_from [] needle = false
contains_from (c ∷ s) needle =
    if ltb (length (c ∷ s)) (length needle)
    then false
    else if equal_fold_ascii (take (length needle) (c ∷ s)) needle
    then true
    else contains_from s needle

unfoldable pub contains_lower : Bytes → Bytes → Bool
unfolding contains_from
contains_lower haystack [] = true
contains_lower haystack (n ∷ needle) = contains_from haystack (n ∷ needle)

unfoldable pub equal_both_folded : Bytes → Bytes → Bool
equal_both_folded [] [] = true
equal_both_folded (a ∷ s) (b ∷ t) = if lower a == lower b then equal_both_folded s t else false
equal_both_folded _ _ = false

unfoldable pub equal_fold_host : Bytes → Bytes → Bool
unfolding equal_both_folded trim
equal_fold_host a b = equal_both_folded (trim a) (trim b)

unfoldable pub artifact_get : Bytes → Bytes → Bytes → Bytes → Bool
unfolding contains_lower contains_lower_prefix equal_fold_host
artifact_get default_host upstream_host method path =
    if not (bytes_eq method (codes "GET"))
    then false
    else if has_prefix (codes "/_p/") path
    then true
    else if contains_lower path (codes "/resolve/")
    then true
    else if contains_lower path (codes "/info/lfs/")
    then true
    else if contains_lower path (codes "/resolve%2f")
    then true
    else if contains_lower_prefix path (codes "/api/resolve-cache/")
    then true
    else if not (equal_fold_host upstream_host default_host)
    then (if contains_lower_prefix path (codes "/api/") then false else true)
    else not (contains_lower_prefix path (codes "/api/"))
