-- ===== src/Registry/CommitRetry/Bounded.antt =====
-- How often a commit is tried, and for how long.
use mathlib.Core.Path.{subst}
use pulsys.Common.{
  ℕ, zero, suc, ◌+◌, ◌≤◌, ◌<◌, Bool, true, false, List, [], ◌∷◌, Option, none, some, if◌then◌else◌,
  ◌≡◌, refl, arith,
}
use pulsys.Registry.CommitRetry.{
  World, Tried, is_settled, max_attempts, backoff, jitter, stop, with_wait, with_commit, if_alive,
  wait_then, retry_loop, commit_with_retry,
}

pub total : List ℕ → ℕ
total [] = 0
total (n ∷ ns) = n + total ns

-- At most so many calls, and at most so much time in the timers.
pub record IsBounded {Res Err : Type 0} (calls time : ℕ) (t : Tried Res Err) : Type 0 where
  pub few : t.commits ≤ calls
  pub soon : total t.waits ≤ time

backoffs : ℕ → ℕ → ℕ
backoffs zero attempt = 0
backoffs (suc left) attempt = backoff attempt + backoffs left (suc attempt)

module _ {Res Err : Type 0} where
  IsBounded-stop :
      (calls time : ℕ) (answer : Res × Option Err)
      → IsBounded calls time (stop {Res = Res} {Err = Err} answer)
  unfolding total
  IsBounded-stop calls time answer = record { few = omega arith; soon = omega arith }

  IsBounded-if_alive :
      (calls time : ℕ) (ended : Option Err) (last : Res × Option Err) (next : Tried Res Err)
      → IsBounded calls time next
      → IsBounded calls time (if_alive ended last next)
  unfolding if_alive
  IsBounded-if_alive calls time none last next b = b
  IsBounded-if_alive calls time (some e) last next b = IsBounded-stop calls time (last.0, some e)

  IsBounded-with_wait :
      (calls time wait most : ℕ) (t : Tried Res Err)
      → wait ≤ most
      → IsBounded calls time t
      → IsBounded calls (most + time) (with_wait wait t)
  unfolding with_wait total
  IsBounded-with_wait calls time wait most t h b =
      let soon = b.soon in record { few = b.few; soon = omega arith }

  IsBounded-with_commit :
      (calls time : ℕ) (t : Tried Res Err)
      → IsBounded calls time t
      → IsBounded (suc calls) time (with_commit t)
  unfolding with_commit
  IsBounded-with_commit calls time t b =
      let few = b.few in record { few = omega arith; soon = b.soon }

jitter_lem : (draw : ℕ → ℕ) (wait : ℕ) → ((n : ℕ) → 0 < n → draw n < n) → jitter draw wait ≤ wait
unfolding jitter
jitter_lem draw wait below = let h = below wait in ground arith

module _ {Res Err : Type 0} (w : World Res Err)
    (below : (attempt n : ℕ) → 0 < n → w.int64_n attempt n < n) where
  IsBounded-wait_then :
      (calls time attempt : ℕ) (last : Res × Option Err) (next : Tried Res Err)
      → IsBounded calls time next
      → IsBounded calls (backoff attempt + time) (wait_then w attempt last next)
  unfolding wait_then
  IsBounded-wait_then calls time attempt last next b =
      IsBounded-with_wait calls time (jitter (w.int64_n attempt) (backoff attempt))
        (backoff attempt) (if_alive (w.ctx_done attempt) last next)
        (jitter_lem (w.int64_n attempt) (backoff attempt) (below attempt))
        (IsBounded-if_alive calls time (w.ctx_done attempt) last next b)

  IsBounded-settled :
      (calls time attempt : ℕ) (last : Res × Option Err) (settled : Bool) (next : Tried Res Err)
      → IsBounded calls time next
      → IsBounded calls
          (backoff attempt + time)
          (if settled then stop last else wait_then w attempt last next)
  IsBounded-settled calls time attempt last true next b = IsBounded-stop calls _ last
  IsBounded-settled calls time attempt last false next b =
      IsBounded-wait_then calls time attempt last next b

  IsBounded-retry_loop :
      (left attempt : ℕ) (last : Res × Option Err)
      → IsBounded left (backoffs left attempt) (retry_loop left w attempt last)
  unfolding retry_loop backoffs
  IsBounded-retry_loop zero attempt last = IsBounded-stop 0 0 last
  IsBounded-retry_loop (suc left) attempt last =
      let rest = IsBounded-retry_loop left (suc attempt) (w.commit_tx attempt) in
      IsBounded-if_alive (suc left) _ (w.ctx_err attempt) last _ (
        IsBounded-with_commit left _ _ (
          IsBounded-settled left _ attempt (w.commit_tx attempt)
            (is_settled w (w.commit_tx attempt)) _ rest))

  all_backoffs : backoffs max_attempts 0 ≡ 1815000000
  unfolding backoff backoffs
  all_backoffs = refl

  -- A commit is tried at most twelve times, with timers of at most 1.815 s in all, whatever the context,
  -- the store and the draws do, if a draw below a positive bound is below it.
  pub commit_with_retry-IsBounded :
      (no_result : Res) → IsBounded max_attempts 1815000000 (commit_with_retry w no_result)
  unfolding commit_with_retry
  commit_with_retry-IsBounded no_result =
      subst (λ n. IsBounded max_attempts n (commit_with_retry w no_result)) all_backoffs
        (IsBounded-retry_loop max_attempts 0 (no_result, none))
