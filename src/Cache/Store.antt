-- ===== src/Cache/Store.antt =====
-- internal/cache/store.go: the metadata of the objects of a store with the counters of its quota, and
-- the operations on them that write no body: aliases, redirects and purges. A store's directory is a
-- list from keys to metadata; each step on it that the operating system could refuse succeeds.
pub mod Aliases
pub mod Purges
use pulsys.Common.{
  ℕ, suc, Bool, true, false, not, ◌||◌, List, [], ◌∷◌, Option, none, some, if◌then◌else◌, ◌==◌,
  Bytes, bytes_eq, ℤ, pos, ◌+ℤ◌, ◌-ℤ◌, ltbℤ, wrap64,
}
use pulsys.Cache.Meta.{Meta}
use pulsys.Cache.Quota.{Counters, meta_total, account_meta_transition}
use pulsys.Cache.Segment.{or_else, merge_extra_headers}

pub record Store : Type 0 where
  pub counters : Counters
  pub objects : List (Bytes × Meta)

unfoldable pub lookup_object : Bytes → List (Bytes × Meta) → Option Meta
lookup_object k [] = none
lookup_object k ((k', m) ∷ rest) =
    let more = lookup_object k rest in if bytes_eq k k' then some m else more

unfoldable pub put_object : Bytes → Meta → List (Bytes × Meta) → List (Bytes × Meta)
put_object k m [] = (k, m) ∷ []
put_object k m ((k', m') ∷ rest) =
    let more = put_object k m rest in if bytes_eq k k' then (k, m) ∷ rest else (k', m') ∷ more

unfoldable pub load_meta : Store → Bytes → Option Meta
unfolding lookup_object
load_meta st k = lookup_object k st.objects

-- The metadata are written and accounted for; with what became used.
unfoldable pub publish_meta : Store → Bytes → Meta → Store × ℤ
unfolding lookup_object put_object account_meta_transition meta_total
publish_meta st k m =
    let old = lookup_object k st.objects in
    let accounted =
      account_meta_transition st.counters (meta_total old)
        (elim old [ none ↦ false | some _ ↦ true ]) (some m) in
    (record { counters = accounted.0; objects = put_object k m st.objects }, accounted.1)

unfoldable pub is_cacheable_redirect_status : ℕ → Bool
is_cacheable_redirect_status s = s == 301 || (s == 302 || (s == 303 || (s == 307 || s == 308)))

abbrev pub empty_meta : Meta
empty_meta = record {
  version = pos 1;
  upstream_host = [];
  path = [];
  raw_query = [];
  spans = [];
  total = none;
  etag = [];
  content_type = [];
  status_code = 0;
  location = [];
  extra_headers = [];
  alias_of = [];
  origin_path = [];
  origin_paths = [];
}

unfoldable pub alias_meta : Bytes → Bytes → Bytes → Bytes → Meta
alias_meta canonical_key host path raw_query = record empty_meta {
  upstream_host = host;
  path = path;
  raw_query = raw_query;
  alias_of = canonical_key;
}

-- The metadata of an object of its own.
unfoldable pub is_concrete : Option Meta → Bool
is_concrete none = false
is_concrete (some m) = bytes_eq m.alias_of []

-- `none` is an error.
unfoldable pub store_alias : Store → Bytes → Bytes → Bytes → Bytes → Bytes → Option Store
unfolding lookup_object publish_meta alias_meta is_concrete
store_alias st alias_key canonical_key host path raw_query =
    if bytes_eq alias_key [] || bytes_eq canonical_key []
    then none
    else if bytes_eq alias_key canonical_key
    then some st
    else if is_concrete (lookup_object alias_key st.objects)
    then some st
    else some (publish_meta st alias_key (alias_meta canonical_key host path raw_query)).0

-- What a redirect leaves in the metadata.
pub record Redirect : Type 0 where
  pub status : ℕ
  pub host : Bytes
  pub path : Bytes
  pub raw_query : Bytes
  pub location : Bytes
  pub content_type : Bytes
  pub etag : Bytes
  pub extra_headers : List (Bytes × Bytes)

unfoldable pub redirect_meta : Option Meta → Redirect → Meta
unfolding or_else merge_extra_headers
redirect_meta old r =
    let m : Meta = elim old [ none ↦ empty_meta | some m ↦ m ] in
    record m {
      upstream_host = r.host;
      path = r.path;
      raw_query = r.raw_query;
      status_code = r.status;
      location = r.location;
      content_type = or_else r.content_type m.content_type;
      etag = or_else r.etag m.etag;
      extra_headers = merge_extra_headers m.extra_headers r.extra_headers;
    }

unfoldable pub store_redirect : Store → Bytes → Redirect → Option Store
unfolding is_cacheable_redirect_status lookup_object redirect_meta publish_meta
store_redirect st key r =
    if not (is_cacheable_redirect_status r.status)
    then none
    else if bytes_eq r.location []
    then none
    else some (publish_meta st key (redirect_meta (lookup_object key st.objects) r)).0

-- What a purge does with one object; a trim may come without new metadata.
pub data Decision : Type 0 where
  keep : Decision
  trim : Option Meta → Decision
  remove : Decision

pub record PurgeResult : Type 0 where
  pub purged : ℕ
  pub trimmed : ℕ
  pub bytes_freed : ℤ

-- The counters without an object of this size.
unfoldable pub forget_object : Counters → Option ℤ → Counters
forget_object c total =
    let freed : ℤ = elim total [ none ↦ pos 0 | some t ↦ t ] in
    if ltbℤ (pos 0) c.max_bytes
    then record c {
      used_bytes = if ltbℤ (pos 0) freed then wrap64 (c.used_bytes -ℤ freed) else c.used_bytes;
      entry_count = wrap64 (c.entry_count -ℤ pos 1);
    }
    else c

-- What is left of the objects, the counters, what was done, and whether the walk came to its end.
pub record Purged : Type 0 where
  pub left : List (Bytes × Meta)
  pub counters : Counters
  pub result : PurgeResult
  pub finished : Bool

unfoldable pub count_removed : PurgeResult → Option ℤ → PurgeResult
count_removed res total = record res {
  purged = suc res.purged;
  bytes_freed = elim total [ none ↦ res.bytes_freed | some t ↦ wrap64 (res.bytes_freed +ℤ t) ];
}

unfoldable pub purge_loop :
    (Bytes → Meta → Decision) → List (Bytes × Meta) → Counters → PurgeResult → Purged
unfolding forget_object count_removed
purge_loop decide [] c res = record { left = []; counters = c; result = res; finished = true }
purge_loop decide ((k, m) ∷ rest) c res = elim (decide k m) [
  | keep ↦ let more = purge_loop decide rest c res in record more { left = (k, m) ∷ more.left }
  | trim none ↦ record { left = (k, m) ∷ rest; counters = c; result = res; finished = false }
  | trim (some new) ↦
      let more = purge_loop decide rest c (record res { trimmed = suc res.trimmed }) in
      record more { left = (k, new) ∷ more.left }
  | remove ↦ purge_loop decide rest (forget_object c m.total) (count_removed res m.total)
]

abbrev pub nothing_purged : PurgeResult
nothing_purged = record { purged = 0; trimmed = 0; bytes_freed = pos 0 }

-- The store, what was done, and whether the walk came to its end.
unfoldable pub purge_or_trim : Store → (Bytes → Meta → Decision) → Store × PurgeResult × Bool
unfolding purge_loop
purge_or_trim st decide =
    let p = purge_loop decide st.objects st.counters nothing_purged in
    (record { counters = p.counters; objects = p.left }, p.result, p.finished)

unfoldable pub purge_keys : Store → (Bytes → Meta → Bool) → Store × PurgeResult × Bool
unfolding purge_or_trim
purge_keys st pred = purge_or_trim st (λ k m. if pred k m then remove else keep)
