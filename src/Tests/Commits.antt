-- ===== src/Tests/Commits.antt =====
-- Tests of the retries of a commit.
use pulsys.Common.{
  ℕ, zero, suc, ◌-◌, [], ◌∷◌, Option, none, some, Bytes, codes, ◌≡◌, refl, true, false, arith, ◌<◌,
}
use pulsys.Registry.CommitRetry.{World, max_attempts, is_settled, commit_with_retry}
use pulsys.Registry.CommitRetry.Bounded.{IsBounded, commit_with_retry-IsBounded}
use pulsys.Registry.CommitRetry.First.{IsAnswerOf, commit_with_retry-IsAnswerOf}

-- The first call loses against another commit, the second is answered with 7.
abbrev lost_once : ℕ → ℕ × Option Bytes
lost_once zero = (0, some (codes "40001"))
lost_once (suc n) = (7, none)

abbrev world : World ℕ Bytes
world = record {
  ctx_err = λ _. none;
  commit_tx = lost_once;
  pg_code = λ e. some e;
  int64_n = λ _ n. n - 1;
  ctx_done = λ _. none;
}

retried :
    commit_with_retry world 0 ≡ record { answer = (7, none); commits = 2; waits = 4999999 ∷ [] }
unfolding commit_with_retry
retried = refl

first_lost : (j : ℕ) → j < 1 → is_settled world (world.commit_tx j) ≡ false
unfolding is_settled
first_lost zero h = refl
first_lost (suc j) h = absurd (omega arith)

second_settled : is_settled world (world.commit_tx 1) ≡ true
unfolding is_settled
second_settled = refl

commit_with_retry-IsAnswerOf_example : IsAnswerOf world 1 2 (commit_with_retry world 0)
commit_with_retry-IsAnswerOf_example =
    commit_with_retry-IsAnswerOf world (record { before = λ _. refl; waiting = λ _. refl }) 1 0
      (omega arith) second_settled first_lost

below : (attempt n : ℕ) → 0 < n → world.int64_n attempt n < n
below attempt n h = omega arith

commit_with_retry-IsBounded_example : IsBounded max_attempts 1815000000 (commit_with_retry world 0)
commit_with_retry-IsBounded_example = commit_with_retry-IsBounded world below 0
