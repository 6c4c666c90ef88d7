-- ===== src/Clock.antt =====
-- What the program uses of Go's `time`: instants as nanoseconds, durations as `int64` nanoseconds.
use Prim.Native.Nat.{min}
use compute_agent.Base.{ℕ, suc, ◌+◌, ◌-◌, ◌*◌, ◌<◌, ◌≡◌, Bool, true, arith, ltb, leb, if◌then◌else◌}
use compute_agent.Base.Int.{ℤ, pos, negsuc, max_int64, ltb_ℤ}
use compute_agent.Models.{Time}

abbrev pub Duration : Type 0
Duration = ℤ

abbrev pub seconds : ℕ → Duration
seconds n = pos (n * 1_000_000_000)

-- `Time.Add`. No instant that the program meets is near the zero time, where this stops.
unfoldable pub add_time : Time → Duration → Time
add_time t (pos d) = t + d
add_time t (negsuc d) = t - suc d

-- `Time.Sub`, which saturates at the ends of `int64`.
unfoldable pub sub_time : Time → Time → Duration
sub_time a b = if leb b a then pos (min (a - b) max_int64) else negsuc (min (b - a - 1) max_int64)

-- `Time.After`
abbrev pub is_after : Time → Time → Bool
is_after a b = ltb b a

-- An age above a limit was measured from an instant that lies further back than the limit.
pub sub_time-above : (a b n : ℕ) → ltb_ℤ (pos n) (sub_time a b) ≡ true → b + n < a
unfolding sub_time
sub_time-above a b n h = ground arith
