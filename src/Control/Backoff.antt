-- ===== src/Control/Backoff.antt =====
-- internal/control/client.go, `nextBackoff`: the pause between two attempts to reach the scheduler.
use Prim.Native.Nat.{min}
use native.Mathlib.Nat.{pow-succ'}
use compute_agent.Base.{ℕ, zero, suc, ◌*◌, ◌^◌, ◌≤◌, ◌≡◌, ◌∙◌, refl, sym, ap, arith, if◌then◌else◌}
use compute_agent.Base.Int.{ltb_ℤ, scale_int64, wrap_int64_fits}
use compute_agent.Clock.{Duration, seconds}

-- `nextBackoff`, in `int64`.
unfoldable pub next_backoff : Duration → Duration
unfolding scale_int64
next_backoff current =
    let next = scale_int64 current 2 in if ltb_ℤ (seconds 30) next then seconds 30 else next

-- The value of `backoff` after so many pauses in a row; `Run` starts at one second.
unfoldable pub backoff_after : ℕ → Duration
unfolding next_backoff
backoff_after zero = seconds 1
backoff_after (suc n) = next_backoff (backoff_after n)

next_backoff-seconds : (k : ℕ) → k ≤ 30 → next_backoff (seconds k) ≡ seconds (min (k * 2) 30)
unfolding next_backoff
next_backoff-seconds k h = ground (arith, wrap_int64_fits (k * 1_000_000_000 * 2) (omega arith))

min-double : (x : ℕ) → min (min x 30 * 2) 30 ≡ min (2 * x) 30
min-double x = omega arith

double : (n : ℕ) → 2 * 2 ^ n ≡ 2 ^ suc n
double n = sym (pow-succ' 2 n)

-- After `n` pauses in a row the value of `backoff` is the `n`th power of two in seconds, but no more
-- than thirty.
pub backoff_after-power : (n : ℕ) → backoff_after n ≡ seconds (min (2 ^ n) 30)
unfolding backoff_after
backoff_after-power zero = refl
backoff_after-power (suc n) =
    rw (backoff_after-power n, next_backoff-seconds (min (2 ^ n) 30) (omega arith))
      (ap seconds (min-double (2 ^ n) ∙ ap (λ (x : ℕ). min x 30) (double n)))
