-- ===== src/Registry/CommitRetry.antt =====
-- internal/proxy/upload_handler.go: commitWithRetry. What the context, the store, the clock and the
-- source of random numbers answer is a parameter, as a function of the number of the attempt.
pub mod Bounded
pub mod First
use pulsys.Common.{
  ℕ, zero, suc, ◌+◌, ◌*◌, ◌^◌, Bool, true, false, List, [], ◌∷◌, Option, none, some, if◌then◌else◌,
  ltb, Bytes, codes, bytes_eq,
}

-- `int64_n` is rand.Int64N; `ctx_done` is the error of a context that ends before the timer fires.
pub record World (Res Err : Type 0) : Type 0 where
  pub ctx_err : ℕ → Option Err
  pub commit_tx : ℕ → Res × Option Err
  pub pg_code : Err → Option Bytes
  pub int64_n : ℕ → ℕ → ℕ
  pub ctx_done : ℕ → Option Err

-- What the loop returns, how often it called CommitTx, and the timers that it set.
pub record Tried (Res Err : Type 0) : Type 0 where
  pub answer : Res × Option Err
  pub commits : ℕ
  pub waits : List ℕ

module _ {Res Err : Type 0} where
  unfoldable pub is_serialization_failure : World Res Err → Err → Bool
  is_serialization_failure w e = elim (w.pg_code e) [
    | none ↦ false
    | some code ↦ bytes_eq code (codes "40001")
  ]

  -- The two early returns after a call of CommitTx.
  unfoldable pub is_settled : World Res Err → Res × Option Err → Bool
  unfolding is_serialization_failure
  is_settled w (res, none) = true
  is_settled w (res, some e) = if is_serialization_failure w e then false else true

abbrev pub max_attempts : ℕ
max_attempts = 12

-- The backoff of an attempt, in nanoseconds, before the draw.
unfoldable pub backoff : ℕ → ℕ
backoff attempt = let wait = 5000000 * 2 ^ attempt in if ltb 250000000 wait then 250000000 else wait

unfoldable pub jitter : (ℕ → ℕ) → ℕ → ℕ
jitter int64_n wait = if ltb 0 wait then int64_n wait else wait

module _ {Res Err : Type 0} where
  abbrev pub stop : Res × Option Err → Tried Res Err
  stop answer = record { answer = answer; commits = 0; waits = [] }

  unfoldable pub with_wait : ℕ → Tried Res Err → Tried Res Err
  with_wait wait t = record t { waits = wait ∷ t.waits }

  unfoldable pub with_commit : Tried Res Err → Tried Res Err
  with_commit t = record t { commits = suc t.commits }

  -- The context's test at the start of a round.
  unfoldable pub if_alive : Option Err → Res × Option Err → Tried Res Err → Tried Res Err
  if_alive (some e) last next = stop (last.0, some e)
  if_alive none last next = next

  -- From the timer on.
  unfoldable pub wait_then : World Res Err → ℕ → Res × Option Err → Tried Res Err → Tried Res Err
  unfolding backoff jitter with_wait if_alive
  wait_then w attempt last next =
      with_wait (jitter (w.int64_n attempt) (backoff attempt))
        (if_alive (w.ctx_done attempt) last next)

  -- The loop, with so many attempts left.
  unfoldable pub retry_loop : ℕ → World Res Err → ℕ → Res × Option Err → Tried Res Err
  unfolding is_settled wait_then with_commit if_alive
  retry_loop zero w attempt last = stop last
  retry_loop (suc left) w attempt last =
      let res = w.commit_tx attempt in
      let next = retry_loop left w (suc attempt) res in
      if_alive (w.ctx_err attempt) last
        (with_commit (if is_settled w res then stop res else wait_then w attempt res next))

  unfoldable pub commit_with_retry : World Res Err → Res → Tried Res Err
  unfolding retry_loop
  commit_with_retry w no_result = retry_loop max_attempts w 0 (no_result, none)
