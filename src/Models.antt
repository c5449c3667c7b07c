-- ===== src/Models.antt =====
-- internal/admin/models/cache.go: to which models an object of the cache belongs;
-- and the purge of a model in internal/admin/api/handler.go.
pub mod Owners
pub mod Purged
use pulsys.Common.{
  ℕ, Bool, true, false, not, ◌||◌, ◌&&◌, List, [], ◌∷◌, Option, none, some, if◌then◌else◌, Bytes,
  codes, bytes_eq, cut_prefix, split_on, length, leb,
}
use pulsys.Cache.Meta.{Meta}
use pulsys.Cache.Store.{Store, PurgeResult, Decision, keep, trim, remove, purge_or_trim}

-- Organisation, name and revision.
pub record ModelPath : Type 0 where
  pub org : Bytes
  pub name : Bytes
  pub rev : Bytes

-- `strings.TrimPrefix(p, "/")`
unfoldable pub without_slash : Bytes → Bytes
without_slash p = elim (cut_prefix (codes "/") p) [ none ↦ p | some rest ↦ rest ]

unfoldable pub is_plural : Bytes → Bool
is_plural s = bytes_eq s (codes "datasets") || bytes_eq s (codes "spaces")

-- Behind "api/resolve-cache".
unfoldable pub cached_parts : List Bytes → Option ModelPath
cached_parts (org ∷ name ∷ rev ∷ file ∷ rest) = some (record { org = org; name = name; rev = rev })
cached_parts _ = none

unfoldable pub drop_kind : List Bytes → List Bytes
unfolding is_plural
drop_kind [] = []
drop_kind (kind ∷ parts) =
    if bytes_eq kind (codes "models") || is_plural kind then parts else kind ∷ parts

unfoldable pub drop_plural : List Bytes → List Bytes
unfolding is_plural
drop_plural [] = []
drop_plural (kind ∷ parts) = if is_plural kind then parts else kind ∷ parts

unfoldable pub resolve_parts : List Bytes → Option ModelPath
resolve_parts (org ∷ name ∷ word ∷ rev ∷ file ∷ rest) =
    if bytes_eq word (codes "resolve")
    then some (record { org = org; name = name; rev = rev })
    else none
resolve_parts _ = none

unfoldable pub model_of_parts : List Bytes → Option ModelPath
unfolding cached_parts drop_kind drop_plural resolve_parts
model_of_parts (a ∷ b ∷ c ∷ rest) =
    if bytes_eq a (codes "api") && bytes_eq b (codes "resolve-cache")
    then cached_parts (drop_kind (c ∷ rest))
    else resolve_parts (drop_plural (a ∷ b ∷ c ∷ rest))
model_of_parts parts = resolve_parts (drop_plural parts)

unfoldable pub parse_hf_model_path : Bytes → Option ModelPath
unfolding without_slash split_on model_of_parts
parse_hf_model_path p = model_of_parts (split_on b'/' (without_slash p))

unfoldable pub matches : Bytes → Bytes → Bytes → Bool
unfolding parse_hf_model_path
matches p org name = if bytes_eq p [] then false else elim (parse_hf_model_path p) [
  | none ↦ false
  | some m ↦ bytes_eq m.org org && bytes_eq m.name name
]

unfoldable pub any_matches : List Bytes → Bytes → Bytes → Bool
unfolding matches
any_matches [] org name = false
any_matches (op ∷ rest) org name = matches op org name || any_matches rest org name

unfoldable pub owned_by : Meta → Bytes → Bytes → Bool
unfolding matches any_matches
owned_by m org name =
    matches m.origin_path org name
    || (any_matches m.origin_paths org name || matches m.path org name)

-- The owners but this one.
unfoldable pub other_owners : List Bytes → Bytes → Bytes → List Bytes
unfolding matches
other_owners [] org name = []
other_owners (op ∷ rest) org name =
    let more = other_owners rest org name in if matches op org name then more else op ∷ more

unfoldable pub first_owner : List Bytes → Bytes
first_owner [] = []
first_owner (op ∷ rest) = op

unfoldable pub remove_owner : Meta → Bytes → Bytes → Meta
unfolding other_owners first_owner matches
remove_owner m org name =
    let others = other_owners m.origin_paths org name in
    record m {
      origin_paths = others;
      origin_path = if matches m.origin_path org name then first_owner others else m.origin_path;
    }

unfoldable pub is_model_path : Bytes → Bool
unfolding parse_hf_model_path
is_model_path p = elim (parse_hf_model_path p) [ none ↦ false | some m ↦ true ]

unfoldable pub any_model_path : List Bytes → Bool
unfolding is_model_path
any_model_path [] = false
any_model_path (op ∷ rest) = is_model_path op || any_model_path rest

unfoldable pub has_any_owner : Meta → Bool
unfolding is_model_path any_model_path
has_any_owner m =
    (not (bytes_eq m.origin_path []) && is_model_path m.origin_path)
    || any_model_path m.origin_paths

unfoldable pub first_model : List Bytes → Bytes → Option ModelPath
unfolding parse_hf_model_path
first_model [] path = parse_hf_model_path path
first_model (op ∷ rest) path =
    let more = first_model rest path in
    elim (parse_hf_model_path op) [ none ↦ more | some m ↦ some m ]

unfoldable pub primary_attribution : Meta → Option ModelPath
unfolding parse_hf_model_path first_model
primary_attribution m =
    let others = first_model m.origin_paths m.path in
    if bytes_eq m.origin_path []
    then others
    else elim (parse_hf_model_path m.origin_path) [ none ↦ others | some p ↦ some p ]

-- internal/admin/api/handler.go: what the purge of a model does with one object.
unfoldable pub purge_decision : Bytes → Bytes → Bytes → Meta → Decision
unfolding owned_by remove_owner has_any_owner
purge_decision org name key m =
    if not (owned_by m org name)
    then keep
    else if not (has_any_owner (remove_owner m org name))
    then remove
    else trim (some (remove_owner m org name))

unfoldable pub purge_model : Store → Bytes → Bytes → Store × PurgeResult × Bool
unfolding purge_or_trim purge_decision
purge_model st org name = purge_or_trim st (purge_decision org name)
