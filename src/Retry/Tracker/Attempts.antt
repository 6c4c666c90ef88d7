-- ===== src/Retry/Tracker/Attempts.antt =====
-- The attempts that a retry tracker counts (internal/retry/policy.go, `RetryTracker`).
use compute_agent.Base.{
  ℕ, suc, ◌+◌, ◌-◌, ◌≤◌, String, ◌≡◌, ◌↔◌, ◌⊎◌, refl, true, false, List, [], ◌∷◌, ◌++◌, length,
  length-append, arith, is_some, if◌then◌else◌,
}
use compute_agent.Base.Int.{pos, ◌≤ℤ◌}
use compute_agent.Models.{Time}
use compute_agent.Retry.Reason.{FailureReason, is_transient, is_permanent}
use compute_agent.Retry.Tracker.{
  Backoff, RetryTracker, FailureHistory, should_retry, record_failure, finish_record, retry_at,
  get_attempt_count, Decision, decided, refused,
}

-- A failure that is recorded.
pub record Failure : Type 0 where
  pub reason : FailureReason
  pub error_msg : String
  pub now : Time
  pub later : Time

-- Attempts are numbered from `n + 1` on, in order.
abbrev pub Numbered : ℕ → List FailureHistory → Type 0
Numbered n [] = Unit
Numbered n (h ∷ hs) = (h.attempt_num ≡ suc n) × Numbered (suc n) hs

Numbered-append :
    (n : ℕ) (hs : List FailureHistory) (h : FailureHistory)
    → Numbered n hs
    → h.attempt_num ≡ n + length hs + 1
    → Numbered n (hs ++ h ∷ [])
Numbered-append n [] h ns e = (omega arith, tt)
Numbered-append n (x ∷ hs) h ns e = (ns.0, Numbered-append (suc n) hs h ns.1 (omega arith))

-- What is left to decide changes neither the history nor the policy.
finish_record-failure_history :
    (backoff : Backoff) (rt : RetryTracker) (reason : FailureReason) (attempt : ℕ) (later : Time)
    (d : Decision)
    → (finish_record backoff rt reason attempt later d).0.failure_history ≡ rt.failure_history
unfolding finish_record
finish_record-failure_history backoff rt reason attempt later (refused e) = refl
finish_record-failure_history backoff rt reason attempt later (decided false) = refl
finish_record-failure_history backoff rt reason attempt later (decided true) = refl

finish_record-policy :
    (backoff : Backoff) (rt : RetryTracker) (reason : FailureReason) (attempt : ℕ) (later : Time)
    (d : Decision)
    → (finish_record backoff rt reason attempt later d).0.policy ≡ rt.policy
unfolding finish_record
finish_record-policy backoff rt reason attempt later (refused e) = refl
finish_record-policy backoff rt reason attempt later (decided false) = refl
finish_record-policy backoff rt reason attempt later (decided true) = refl

finish_record-retry_at :
    (backoff : Backoff) (rt : RetryTracker) (reason : FailureReason) (attempt : ℕ) (later : Time)
    (d : Decision)
    → (is_some (retry_at (finish_record backoff rt reason attempt later d).1) ≡ true)
      ↔ (d ≡ decided true)
unfolding finish_record
finish_record-retry_at backoff rt reason attempt later (refused e) = ground arith
finish_record-retry_at backoff rt reason attempt later (decided false) = ground arith
finish_record-retry_at backoff rt reason attempt later (decided true) = ground arith

should_retry_iff :
    (rt : RetryTracker) (reason : FailureReason) (n : ℕ)
    → (should_retry rt reason n ≡ decided true) ↔ (
        (pos n ≤ℤ rt.policy.max_attempts)
        × (is_permanent reason ≡ false)
        × ((rt.policy.only_retry_transient ≡ false) ⊎ (is_transient reason ≡ true)))
unfolding should_retry
should_retry_iff rt reason n = ground arith

module _ (backoff : Backoff) (rt : RetryTracker) (reason : FailureReason) (msg : String)
    (now later : Time) where
  record_failure-policy : (record_failure backoff rt reason msg now later).0.policy ≡ rt.policy
  unfolding record_failure
  record_failure-policy = rw finish_record-policy

  record_failure-attempts :
      get_attempt_count (record_failure backoff rt reason msg now later).0
      ≡ suc (get_attempt_count rt)
  unfolding record_failure
  record_failure-attempts =
      rw finish_record-failure_history (omega (arith, length-append {0} rt.failure_history))

  -- If the attempts are numbered from one on in order, one more failure adds one attempt, they are
  -- still numbered so, and the policy stays.
  pub record_failure-Numbered :
      Numbered 0 rt.failure_history
      → Numbered 0 (record_failure backoff rt reason msg now later).0.failure_history
        × (get_attempt_count (record_failure backoff rt reason msg now later).0
            ≡ suc (get_attempt_count rt))
        × ((record_failure backoff rt reason msg now later).0.policy ≡ rt.policy)
  unfolding record_failure
  record_failure-Numbered h = (
    rw finish_record-failure_history (Numbered-append 0 rt.failure_history _ h (omega arith)),
    record_failure-attempts,
    record_failure-policy,
  )

  -- A failure is answered by a retry exactly if the attempts are not used up, its reason is not
  -- permanent, and it is transient or the policy retries others too.
  pub record_failure-retries_iff :
      (is_some (retry_at (record_failure backoff rt reason msg now later).1) ≡ true) ↔ (
        (pos (suc (get_attempt_count rt)) ≤ℤ rt.policy.max_attempts)
        × (is_permanent reason ≡ false)
        × ((rt.policy.only_retry_transient ≡ false) ⊎ (is_transient reason ≡ true)))
  unfolding record_failure
  record_failure-retries_iff =
      let rt' : RetryTracker = record rt {
        failure_history =
            rt.failure_history
            ++ record {
              timestamp = now;
              reason = reason;
              error_msg = msg;
              attempt_num = length rt.failure_history + 1;
            }
              ∷ [];
      } in
      ground (
        arith,
        finish_record-retry_at backoff rt' reason (length rt.failure_history + 1) later
            (should_retry rt' reason (length rt.failure_history + 1)),
        should_retry_iff rt' reason (length rt.failure_history + 1),
      )

-- The tracker after some failures, and which of them were answered by a retry.
pub run : Backoff → RetryTracker → List Failure → RetryTracker × ℕ
run backoff rt [] = (rt, 0)
run backoff rt (f ∷ fs) =
    let (rt', r) = record_failure backoff rt f.reason f.error_msg f.now f.later in
    let (rt'', n) = run backoff rt' fs in (rt'', if is_some (retry_at r) then suc n else n)

-- If the policy's limit is `m`, at most as many of some failures are answered by a retry as
-- attempts are left, whatever the failures are.
pub run_bounded :
    (backoff : Backoff) (rt : RetryTracker) (fs : List Failure) (m : ℕ)
    → rt.policy.max_attempts ≡ pos m
    → (run backoff rt fs).1 ≤ m - get_attempt_count rt
unfolding run
run_bounded backoff rt [] m e = omega arith
run_bounded backoff rt (f ∷ fs) m e = ground (
  arith,
  record_failure-attempts backoff rt f.reason f.error_msg f.now f.later,
  record_failure-policy backoff rt f.reason f.error_msg f.now f.later,
  record_failure-retries_iff backoff rt f.reason f.error_msg f.now f.later,
  run_bounded backoff (record_failure backoff rt f.reason f.error_msg f.now f.later).0 fs m,
)
