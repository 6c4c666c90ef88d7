-- ===== src/Examples/Retries.antt =====
-- Examples of the retry policy (internal/retry/policy.go).
use compute_agent.Base.{
  ℕ, zero, suc, ◌≤◌, ◌≡◌, ◌≢◌, ◌↔◌, ◌⊎◌, refl, true, false, some, List, [], ◌∷◌, is_some, arith,
  lower_codes, has_infix, to_lower,
}
use compute_agent.Base.Int.{pos, ◌≤ℤ◌, ◌<ℤ◌}
use compute_agent.Retry.Reason.{
  network_timeout, dns_resolution, image_pull_auth, is_permanent, is_transient,
}
use compute_agent.Retry.Classify.{classify_error}
use compute_agent.Retry.Classify.Keywords.{no_such_host-ne-dns_resolution}
use compute_agent.Retry.Tracker.{Backoff, record_failure, retry_at, calculate_next_delay}
use compute_agent.Retry.Tracker.Attempts.{Failure, run, run_bounded, record_failure-retries_iff}
use compute_agent.Retry.Tracker.Delays.{calculate_next_delay_overflow}
use compute_agent.Examples.Data.{backoff, fresh_tracker}

abbrev timeouts : ℕ → List Failure
timeouts zero = []
timeouts (suc n) =
    record { reason = network_timeout; error_msg = "timeout"; now = 1; later = 2 } ∷ timeouts n

run_bounded_example : (run backoff fresh_tracker (timeouts 5)).1 ≤ 3
run_bounded_example = run_bounded backoff fresh_tracker (timeouts 5) 3 refl

record_failure-retries_iff_example :
    (is_some (retry_at (record_failure backoff fresh_tracker image_pull_auth "denied" 1 2).1)
      ≡ true)
    ↔ ((pos 1 ≤ℤ pos 3)
        × (is_permanent image_pull_auth ≡ false)
        × ((true ≡ false) ⊎ (is_transient image_pull_auth ≡ true)))
record_failure-retries_iff_example =
    record_failure-retries_iff backoff fresh_tracker image_pull_auth "denied" 1 2

abbrev long_backoff : Backoff
long_backoff = λ d f n. pos 10_000_000_000

calculate_next_delay_overflow_example : calculate_next_delay long_backoff fresh_tracker 40 <ℤ pos 0
calculate_next_delay_overflow_example =
    calculate_next_delay_overflow long_backoff fresh_tracker 40 10_000_000_000 120_000_000_000 refl
      (omega arith) (omega arith) refl

no_such_host-ne-dns_resolution_example :
    classify_error (some "lookup registry: no such host") ≢ dns_resolution
unfolding lower_codes has_infix to_lower
no_such_host-ne-dns_resolution_example =
    no_such_host-ne-dns_resolution "lookup registry: no such host" refl
