-- ===== src/Retry/Tracker/Delays.antt =====
-- The delays of a retry tracker (internal/retry/policy.go, `calculateNextDelay`).
use compute_agent.Base.{
  ℕ, ◌+◌, ◌*◌, ◌≤◌, ◌<◌, String, ◌≡◌, ◌∙◌, refl, true, false, false, none, some, [], ◌∷◌, ◌++◌,
  length, arith, ltb, if◌then◌else◌,
}
use compute_agent.Base.Int.{
  pos, ◌≤ℤ◌, ◌<ℤ◌, wrap_int64_negative, scale_int64, wrap_int64_fits, max_int64,
}
use compute_agent.Models.{Time}
use compute_agent.Clock.{seconds, add_time}
use compute_agent.Retry.Reason.{FailureReason, is_transient, is_permanent}
use compute_agent.Retry.Tracker.{
  Backoff, RetryTracker, record_failure, finish_record, should_retry, retry_at, get_attempt_count,
  calculate_next_delay, can_retry_now, default_retry_policy, float_two, decided, refused,
  attempts_exceeded,
}

-- No delay is above the policy's maximum, whatever the float computation gives.
pub calculate_next_delay-le :
    (backoff : Backoff) (rt : RetryTracker) (n : ℕ)
    → calculate_next_delay backoff rt n ≤ℤ rt.policy.max_delay
unfolding calculate_next_delay
calculate_next_delay-le backoff rt n = ground arith

-- If the float computation gives `s` seconds, `s` seconds fit `int64` nanoseconds and the policy's
-- maximum is not negative, the delay is `s` seconds or the maximum, whichever is less.
pub calculate_next_delay_exact :
    (backoff : Backoff) (rt : RetryTracker) (n s m : ℕ)
    → backoff rt.policy.initial_delay rt.policy.backoff_multiplier n ≡ pos s
    → s * 1_000_000_000 ≤ max_int64
    → rt.policy.max_delay ≡ pos m
    → calculate_next_delay backoff rt n
      ≡ pos (if ltb m (s * 1_000_000_000) then m else s * 1_000_000_000)
unfolding calculate_next_delay scale_int64
calculate_next_delay_exact backoff rt n s m e fits em =
    rw (e, wrap_int64_fits (s * 1_000_000_000) fits, em) (ground arith)

-- If the float computation gives so many seconds that the product leaves `int64` by at most 2 ^ 63
-- nanoseconds, and the maximum of the policy is not negative, the delay is negative: the cap does
-- not apply to it.
pub calculate_next_delay_overflow :
    (backoff : Backoff) (rt : RetryTracker) (n s m : ℕ)
    → backoff rt.policy.initial_delay rt.policy.backoff_multiplier n ≡ pos s
    → max_int64 < s * 1_000_000_000
    → s * 1_000_000_000 < 0x10000000000000000
    → rt.policy.max_delay ≡ pos m
    → calculate_next_delay backoff rt n <ℤ pos 0
unfolding calculate_next_delay scale_int64
calculate_next_delay_overflow backoff rt n s m e over under em =
    rw (e, wrap_int64_negative (s * 1_000_000_000) over under, em) (ground arith)

can_retry_after :
    (backoff : Backoff) (rt : RetryTracker) (reason : FailureReason) (attempt : ℕ)
    (later next : Time)
    → retry_at (finish_record backoff rt reason attempt later (decided true)).1 ≡ some next
    → (finish_record backoff rt reason attempt later (decided true)).0.next_retry_time ≡ next
unfolding finish_record
can_retry_after backoff rt reason attempt later next h = ground arith

module _ (backoff : Backoff) (rt : RetryTracker) (reason : FailureReason) (msg : String)
    (now later next : Time) where
  -- After a failure that is answered by a retry at `next`, a retry is allowed exactly after `next`.
  pub can_retry_now_iff :
      (t : Time)
      → retry_at (record_failure backoff rt reason msg now later).1 ≡ some next
      → can_retry_now (record_failure backoff rt reason msg now later).0 t ≡ ltb next t
  unfolding record_failure finish_record
  can_retry_now_iff t h = ground arith

  -- The retry is due a delay after the second reading of the clock.
  pub retry_at-record_failure :
      retry_at (record_failure backoff rt reason msg now later).1 ≡ some next
      → next ≡ add_time later (calculate_next_delay backoff rt (get_attempt_count rt + 1))
  unfolding record_failure finish_record calculate_next_delay
  retry_at-record_failure h = ground arith

  -- After a failure that is answered by a retry, no retry is allowed at a time that is at most the
  -- delay of its attempt after the second reading of the clock.
  pub retry_not_due :
      (t : Time)
      → retry_at (record_failure backoff rt reason msg now later).1 ≡ some next
      → t ≤ add_time later (calculate_next_delay backoff rt (get_attempt_count rt + 1))
      → can_retry_now (record_failure backoff rt reason msg now later).0 t ≡ false
  retry_not_due t h le = ground (arith, can_retry_now_iff t h, retry_at-record_failure h)

transient_not_permanent : (r : FailureReason) → is_transient r ≡ true → is_permanent r ≡ false
unfolding is_transient is_permanent
transient_not_permanent r h = ground arith

-- Which answer the default policy gives to a transient failure.
default-should_retry :
    (rt : RetryTracker) (reason : FailureReason) (n : ℕ)
    → rt.policy ≡ default_retry_policy
    → is_transient reason ≡ true
    → should_retry rt reason n
      ≡ (if ltb 3 n then refused (attempts_exceeded (pos 3)) else decided true)
unfolding should_retry
default-should_retry rt reason n ep tr =
    rw (ep, transient_not_permanent reason tr, tr) (ground arith)

default_delay :
    (backoff : Backoff) (rt : RetryTracker) (n s : ℕ)
    → rt.policy ≡ default_retry_policy
    → backoff (seconds 5) float_two n ≡ pos s
    → s ≤ 120
    → calculate_next_delay backoff rt n ≡ seconds s
default_delay backoff rt n s ep eb le =
    calculate_next_delay_exact backoff rt n s 120_000_000_000 (rw ep eb) (omega arith) (rw ep refl)
    ∙ ground arith

-- Under the default policy, if the float computation gives `s` seconds for this attempt, at most
-- two minutes, each of the first three transient failures is answered by a retry `s` seconds
-- later, and no further failure is answered by a retry.
pub default_schedule :
    (backoff : Backoff) (rt : RetryTracker) (reason : FailureReason) (msg : String)
    (now later s : ℕ)
    → rt.policy ≡ default_retry_policy
    → is_transient reason ≡ true
    → backoff (seconds 5) float_two (get_attempt_count rt + 1) ≡ pos s
    → s ≤ 120
    → retry_at (record_failure backoff rt reason msg now later).1
      ≡ (if ltb (get_attempt_count rt) 3 then some (later + s * 1_000_000_000) else none)
unfolding record_failure finish_record add_time
default_schedule backoff rt reason msg now later s ep tr eb le =
    let n = length rt.failure_history + 1 in
    let rt' : RetryTracker = record rt {
      failure_history =
          rt.failure_history
          ++ record { timestamp = now; reason = reason; error_msg = msg; attempt_num = n } ∷ [];
    } in
    ground (arith, default-should_retry rt' reason n ep tr, default_delay backoff rt' n s ep eb le)
