-- ===== src/Tests/Models.antt =====
-- Tests of the owners of objects, the purge of a model and what the registry accepts.
use pulsys.Common.{true, false, [], ◌∷◌, some, Bytes, codes, ◌≡◌, refl, arith, pos, All}
use pulsys.Cache.Meta.{Meta}
use pulsys.Cache.Store.{Store, empty_meta}
use pulsys.Models.{matches, owned_by, remove_owner, purge_model}
use pulsys.Models.Owners.{AreApart, remove_owner-owned_by}
use pulsys.Models.Purged.{IsGiven, purge_model-IsGiven}
use pulsys.Registry.{
  parse_simple_range, validate_commit_file_path, has_lfs_extension, split_repo_name,
}
use pulsys.Registry.SimpleRange.{IsWithin, parse_simple_range-IsWithin}

-- A body that two models share.
abbrev shared : Meta
shared = record empty_meta {
  path = codes "/xorbs/1";
  origin_path = codes "/a/m/resolve/main/f";
  origin_paths = codes "/a/m/resolve/main/f" ∷ codes "/b/n/resolve/main/f" ∷ [];
}

abbrev own : Meta
own = record empty_meta { path = codes "/a/m/resolve/main/config" }

abbrev shared_store : Store
shared_store = record {
  counters = record {
    max_bytes = pos 100;
    used_bytes = pos 0;
    reserved_bytes = pos 0;
    entry_count = pos 2;
  };
  objects = (codes "x", shared) ∷ (codes "y", own) ∷ [];
}

-- The shared body stays, with the other model as its first owner; the model's own file goes.
one_left :
    (purge_model shared_store (codes "a") (codes "m")).0.objects
    ≡ (
      codes "x",
      record shared {
        origin_path = codes "/b/n/resolve/main/f";
        origin_paths = codes "/b/n/resolve/main/f" ∷ [];
      },
    )
      ∷ []
unfolding purge_model
one_left = refl

purge_model-IsGiven_example :
    All
      (IsGiven (codes "a") (codes "m"))
      (purge_model shared_store (codes "a") (codes "m")).0.objects
    × ((purge_model shared_store (codes "a") (codes "m")).2 ≡ true)
purge_model-IsGiven_example = purge_model-IsGiven shared_store (codes "a") (codes "m")

remove_owner-owned_by_example :
    (owned_by (remove_owner shared (codes "a") (codes "m")) (codes "a") (codes "m")
      ≡ matches shared.path (codes "a") (codes "m"))
    × ((org name : Bytes)
        → AreApart (codes "a") (codes "m") org name
        → owned_by (remove_owner shared (codes "a") (codes "m")) org name
          ≡ owned_by shared org name)
remove_owner-owned_by_example = remove_owner-owned_by shared (codes "a") (codes "m")

last_four : parse_simple_range (codes "bytes=-4") (pos 10) ≡ some (pos 6, pos 9)
unfolding parse_simple_range
last_four = refl

parse_simple_range-IsWithin_example : IsWithin 10 (pos 6, pos 9)
parse_simple_range-IsWithin_example =
    parse_simple_range-IsWithin 10 (codes "bytes=-4") (pos 6, pos 9) (omega arith) last_four

parents_refused : validate_commit_file_path (codes "a//../b") ≡ false
unfolding validate_commit_file_path
parents_refused = refl

dots_accepted : validate_commit_file_path (codes "weights..bin") ≡ true
unfolding validate_commit_file_path
dots_accepted = refl

upper_extension : has_lfs_extension (codes "M.GGUF") ≡ true
unfolding has_lfs_extension
upper_extension = refl

name_split : split_repo_name (codes "o/r") [] ≡ (codes "o", codes "r")
unfolding split_repo_name
name_split = refl
