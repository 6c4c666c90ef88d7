-- ===== src/Retry/Tracker.antt =====
-- internal/retry/policy.go: `RetryPolicy`, `RetryTracker` and `RetryResult`.
-- The readings of the clock are arguments. The one computation on floats,
-- `int64(InitialDelay.Seconds() * math.Pow(BackoffMultiplier, float64(attemptNum-1)))`, is the
-- parameter `backoff`, a function of the initial delay, the multiplier and the attempt.
pub mod Attempts
pub mod Delays
use compute_agent.Base.{
  ℕ, suc, ◌+◌, String, ◌<>◌, Bool, true, false, not, ◌&&◌, Option, none, some, List, [], ◌∷◌, ◌++◌,
  length, decimal, if◌then◌else◌,
}
use compute_agent.Base.Int.{ℤ, pos, negsuc, ltb_ℤ, scale_int64}
use compute_agent.Models.{Time, zero_time, Float64}
use compute_agent.Clock.{Duration, seconds, add_time, is_after}
use compute_agent.Retry.Reason.{FailureReason, reason_text, is_transient, is_permanent}

abbrev pub Backoff : Type 0
Backoff = Duration → Float64 → ℕ → ℤ

pub record RetryPolicy : Type 0 where
  pub max_attempts : ℤ
  pub initial_delay : Duration
  pub max_delay : Duration
  pub backoff_multiplier : Float64
  pub only_retry_transient : Bool

-- The bits of 2.0.
abbrev pub float_two : Float64
float_two = record { bits = 0x4000000000000000 }

abbrev pub default_retry_policy : RetryPolicy
default_retry_policy = record {
  max_attempts = pos 3;
  initial_delay = seconds 5;
  max_delay = seconds 120;
  backoff_multiplier = float_two;
  only_retry_transient = true;
}

pub record FailureHistory : Type 0 where
  pub timestamp : Time
  pub reason : FailureReason
  pub error_msg : String
  pub attempt_num : ℕ

pub record RetryTracker : Type 0 where
  pub policy : RetryPolicy
  pub failure_history : List FailureHistory
  pub next_retry_time : Time

-- A nil policy is the default one.
unfoldable pub new_retry_tracker : Option RetryPolicy → RetryTracker
new_retry_tracker none = record {
  policy = default_retry_policy;
  failure_history = [];
  next_retry_time = zero_time;
}
new_retry_tracker (some p) = record {
  policy = p;
  failure_history = [];
  next_retry_time = zero_time;
}

pub record RetryResult : Type 0 where
  pub retryable : Bool
  pub failure_reason : FailureReason
  pub attempt : ℕ
  pub total_attempts : ℤ
  pub next_retry_time : Time
  pub retry_after : Duration
  pub failure_history : List FailureHistory

-- The two errors of `ShouldRetry`.
pub data RetryError : Type 0 where
  attempts_exceeded : ℤ → RetryError
  permanent_reason : FailureReason → RetryError

pub data Decision : Type 0 where
  decided : Bool → Decision
  refused : RetryError → Decision

unfoldable pub should_retry : RetryTracker → FailureReason → ℕ → Decision
unfolding is_transient is_permanent
should_retry rt reason attempt_num =
    if ltb_ℤ rt.policy.max_attempts (pos attempt_num)
    then refused (attempts_exceeded rt.policy.max_attempts)
    else if is_permanent reason
    then refused (permanent_reason reason)
    else if rt.policy.only_retry_transient && not (is_transient reason)
    then decided false
    else decided true

unfoldable pub calculate_next_delay : Backoff → RetryTracker → ℕ → Duration
calculate_next_delay backoff rt attempt_num =
    let p = rt.policy in
    let delay_seconds = backoff p.initial_delay p.backoff_multiplier attempt_num in
    let delay = scale_int64 delay_seconds 1_000_000_000 in
    if ltb_ℤ p.max_delay delay then p.max_delay else delay

abbrev pub get_attempt_count : RetryTracker → ℕ
get_attempt_count rt = length rt.failure_history

abbrev pub can_retry_now : RetryTracker → Time → Bool
can_retry_now rt now = is_after now rt.next_retry_time

pub data Recorded : Type 0 where
  recorded : RetryResult → Recorded
  record_failed : RetryError → Recorded

-- What `RecordFailure` returns, once the attempt stands in the history of `rt`.
finish_record :
    Backoff → RetryTracker → FailureReason → ℕ → Time → Decision → RetryTracker × Recorded
finish_record backoff rt reason attempt later (refused e) = (rt, record_failed e)
finish_record backoff rt reason attempt later (decided false) = (
  rt,
  recorded (record {
    retryable = false;
    failure_reason = reason;
    attempt = attempt;
    total_attempts = rt.policy.max_attempts;
    next_retry_time = zero_time;
    retry_after = pos 0;
    failure_history = rt.failure_history;
  }),
)
finish_record backoff rt reason attempt later (decided true) =
    let delay = calculate_next_delay backoff rt attempt in
    let next = add_time later delay in
    (
      record rt { next_retry_time = next },
      recorded (record {
        retryable = true;
        failure_reason = reason;
        attempt = attempt;
        total_attempts = rt.policy.max_attempts;
        next_retry_time = next;
        retry_after = delay;
        failure_history = rt.failure_history;
      }),
    )

-- `now` is the first reading of the clock, `later` the one that the next retry counts from.
unfoldable pub record_failure :
    Backoff → RetryTracker → FailureReason → String → Time → Time → RetryTracker × Recorded
unfolding finish_record
record_failure backoff rt reason error_msg now later =
    let attempt_num = length rt.failure_history + 1 in
    let history : FailureHistory = record {
      timestamp = now;
      reason = reason;
      error_msg = error_msg;
      attempt_num = attempt_num;
    } in
    let rt' = record rt { failure_history = rt.failure_history ++ history ∷ [] } in
    finish_record backoff rt' reason attempt_num later (should_retry rt' reason attempt_num)

unfoldable pub reset : RetryTracker → RetryTracker
reset rt = record rt { failure_history = []; next_retry_time = zero_time }

-- `RetryResult != nil && RetryResult.Retryable`, with the time of the next retry.
abbrev pub retry_at : Recorded → Option Time
retry_at (recorded r) = if r.retryable then some r.next_retry_time else none
retry_at (record_failed e) = none
