-- ===== src/Proxy/Lookup/Stale.antt =====
-- An alias whose object is gone.
use pulsys.Common.{none, some, [], Bytes, ℤ, ◌≡◌, List, ◌∷◌}
use pulsys.Cache.Meta.{Meta}
use pulsys.Cache.Segment.{SegmentParams, commit_meta}
use pulsys.Cache.Store.{Store, load_meta, publish_meta}
use pulsys.Proxy.Handler.{Handler}
use pulsys.Proxy.Headers.{Headers}

-- Segments that are committed one after the other, each under its key and onto the metadata that
-- stand there.
pub commit_all : Store → List (Bytes × SegmentParams × ℤ) → Store
commit_all st [] = st
commit_all st ((key, p, written) ∷ later) =
    commit_all (publish_meta st key (commit_meta (load_meta st key) p written)).0 later

-- The key has an alias to the target, which has no object.
pub record IsStale (st : Store) (key target : Bytes) : Type 0 where
  pub meta : Meta
  pub loaded : load_meta st key ≡ some meta
  pub alias : meta.alias_of ≡ target
  pub gone : load_meta st target ≡ none
