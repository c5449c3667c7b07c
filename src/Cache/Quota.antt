-- ===== src/Cache/Quota.antt =====
-- internal/cache/store.go: the counters of the storage quota. They are atomic `int64` values; the
-- loop of `reserveQuota` retries until no other caller came between, so it is one step here.
pub mod Bounds
use pulsys.Common.{
  Bool, true, false, not, ◌&&◌, ◌||◌, Option, none, some, if◌then◌else◌, ℤ, pos, ◌+ℤ◌, ◌-ℤ◌, lebℤ,
  ltbℤ, wrap64,
}
use pulsys.Cache.Meta.{Meta}

pub record Counters : Type 0 where
  pub max_bytes : ℤ
  pub used_bytes : ℤ
  pub reserved_bytes : ℤ
  pub entry_count : ℤ

unfoldable pub positive_or_zero : Option ℤ → ℤ
positive_or_zero none = pos 0
positive_or_zero (some t) = if lebℤ t (pos 0) then pos 0 else t

unfoldable pub meta_total : Option Meta → ℤ
unfolding positive_or_zero
meta_total none = pos 0
meta_total (some m) = positive_or_zero m.total

-- `none` is `ErrQuotaExceeded`.
unfoldable pub reserve_quota : Counters → ℤ → Option Counters
reserve_quota c n =
    if lebℤ c.max_bytes (pos 0) || lebℤ n (pos 0)
    then some c
    else if lebℤ c.max_bytes c.used_bytes
        || ltbℤ c.max_bytes (wrap64 (wrap64 (c.used_bytes +ℤ c.reserved_bytes) +ℤ n))
    then none
    else some (record c { reserved_bytes = wrap64 (c.reserved_bytes +ℤ n) })

unfoldable pub release_reservation : Counters → ℤ → Counters
release_reservation c n =
    if lebℤ n (pos 0) then c else record c { reserved_bytes = wrap64 (c.reserved_bytes -ℤ n) }

-- The counters, and the bytes that have become used.
unfoldable pub account_meta_transition : Counters → ℤ → Bool → Option Meta → Counters × ℤ
unfolding meta_total
account_meta_transition c old_total old_exists new_meta =
    if lebℤ c.max_bytes (pos 0)
    then (c, pos 0)
    else (let new_total = meta_total new_meta in
        let is_new = not old_exists && (elim new_meta [ none ↦ false | some _ ↦ true ]) in
        (
          record c {
            used_bytes =
                if lebℤ new_total old_total && lebℤ old_total new_total
                then c.used_bytes
                else wrap64 (c.used_bytes +ℤ wrap64 (new_total -ℤ old_total));
            entry_count = if is_new then wrap64 (c.entry_count +ℤ pos 1) else c.entry_count;
          },
          if ltbℤ old_total new_total then wrap64 (new_total -ℤ old_total) else pos 0,
        ))
