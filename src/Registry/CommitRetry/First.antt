-- ===== src/Registry/CommitRetry/First.antt =====
-- Which attempt of a commit is answered.
use pulsys.Common.{
  ℕ, zero, suc, ◌+◌, ◌≤◌, ◌<◌, true, false, Option, none, ◌≡◌, refl, ap, ◌∙◌, arith,
}
use pulsys.Registry.CommitRetry.{
  World, Tried, is_settled, max_attempts, with_wait, with_commit, if_alive, wait_then, retry_loop,
  commit_with_retry,
}

-- The context never ends.
pub record IsAlive {Res Err : Type 0} (w : World Res Err) : Type 0 where
  pub before : (attempt : ℕ) → w.ctx_err attempt ≡ none
  pub waiting : (attempt : ℕ) → w.ctx_done attempt ≡ none

-- The answer is the attempt's, and so many attempts were made.
pub record IsAnswerOf {Res Err : Type 0} (w : World Res Err) (attempt calls : ℕ) (t : Tried Res Err)
    : Type 0 where
  pub answered : t.answer ≡ w.commit_tx attempt
  pub called : t.commits ≡ calls

module _ {Res Err : Type 0} (w : World Res Err) (alive : IsAlive w) where
  IsAnswerOf-round :
      (target calls attempt : ℕ) (next : Tried Res Err)
      → IsAnswerOf w target calls next
      → IsAnswerOf w target
          (suc calls)
          (with_commit (wait_then w attempt (w.commit_tx attempt) next))
  unfolding with_commit wait_then with_wait if_alive
  IsAnswerOf-round target calls attempt next h =
      rw (alive.waiting attempt, wait_then)
        record { answered = h.answered; called = ap suc h.called }

  first_settled :
      (left attempt target calls : ℕ) (last : Res × Option Err)
      → attempt + calls ≡ target
      → calls < left
      → is_settled w (w.commit_tx target) ≡ true
      → ((j : ℕ) → attempt ≤ j → j < target → is_settled w (w.commit_tx j) ≡ false)
      → IsAnswerOf w target (suc calls) (retry_loop left w attempt last)
  unfolding retry_loop if_alive with_commit
  first_settled zero attempt target calls last at h settled before = absurd (omega arith)
  first_settled (suc left) attempt target zero last at h settled before =
      let same : attempt ≡ target = omega arith in
      let here = ap (λ n. is_settled w (w.commit_tx n)) same ∙ settled in
      rw (alive.before attempt, here, retry_loop)
        record { answered = ap (λ n. w.commit_tx n) same; called = refl }
  first_settled (suc left) attempt target (suc calls) last at h settled before =
      rw (alive.before attempt, before attempt (omega arith) (omega arith), retry_loop)
        (IsAnswerOf-round target (suc calls) attempt _ (
          first_settled left (suc attempt) target calls (w.commit_tx attempt) (omega arith)
            (omega arith) settled (λ j. λ from. before j (omega arith))))

  -- While the context lives, a commit is answered with what the store says in the first attempt, of
  -- at most twelve, that succeeds or fails with another error than a serialization failure, and no
  -- attempt is made after it.
  pub commit_with_retry-IsAnswerOf :
      (target : ℕ) (no_result : Res)
      → target < max_attempts
      → is_settled w (w.commit_tx target) ≡ true
      → ((j : ℕ) → j < target → is_settled w (w.commit_tx j) ≡ false)
      → IsAnswerOf w target (suc target) (commit_with_retry w no_result)
  unfolding commit_with_retry
  commit_with_retry-IsAnswerOf target no_result h settled before =
      first_settled max_attempts 0 target target (no_result, none) (omega arith) h settled
        (λ j. λ _. before j)
