-- ===== src/Base/Int.antt =====
-- Signed integers over the native numbers, and Go's `int64` with its wrap-around.
use Prim.Native.Nat.{ℕ, suc, ◌+◌, ◌-◌, ◌*◌, ◌%◌, ◌≤◌, ◌<◌}
use mathlib.Core.Path.{◌≡◌}
use mathlib.Core.Bool.{Bool}
use native.Mathlib.Omega.{arith}
use Prim.Native.String.{String, ◌++◌}
use compute_agent.Base.Text.{decimal}
use compute_agent.Base.Tests.{ltb, leb, if◌then◌else◌}

-- `negsuc n` is -(n + 1).
pub data ℤ : Type 0 where
  pos : ℕ → ℤ
  negsuc : ℕ → ℤ

abbrev pub pos_part : ℤ → ℕ
pos_part (pos n) = n
pos_part (negsuc n) = 0

abbrev pub neg_part : ℤ → ℕ
neg_part (pos n) = 0
neg_part (negsuc n) = suc n

-- a - b, as an integer.
abbrev pub sub_ℕ : ℕ → ℕ → ℤ
sub_ℕ a b = if leb b a then pos (a - b) else negsuc (b - a - 1)

infix 50 ◌≤ℤ◌ ◌<ℤ◌
abbrev pub ◌≤ℤ◌ : ℤ → ℤ → Type 0
a ≤ℤ b = pos_part a + neg_part b ≤ pos_part b + neg_part a

abbrev pub ◌<ℤ◌ : ℤ → ℤ → Type 0
a <ℤ b = pos_part a + neg_part b < pos_part b + neg_part a

abbrev pub ltb_ℤ : ℤ → ℤ → Bool
ltb_ℤ a b = ltb (pos_part a + neg_part b) (pos_part b + neg_part a)

-- The residue of a number modulo 2 ^ 64, read as a signed word.
abbrev pub int64_of_word : ℕ → ℤ
int64_of_word w = if ltb w 0x8000000000000000 then pos w else negsuc (0xffffffffffffffff - w)

-- An integer reduced to `int64`.
unfoldable pub wrap_int64 : ℤ → ℤ
wrap_int64 (pos n) = int64_of_word (n % 0x10000000000000000)
wrap_int64 (negsuc n) = int64_of_word (0xffffffffffffffff - n % 0x10000000000000000)

abbrev pub max_int64 : ℕ
max_int64 = 0x7fffffffffffffff

pub wrap_int64_fits : (n : ℕ) → n ≤ max_int64 → wrap_int64 (pos n) ≡ pos n
unfolding wrap_int64
wrap_int64_fits n h = ground arith

pub wrap_int64_negative :
    (n : ℕ)
    → max_int64 < n
    → n < 0x10000000000000000
    → wrap_int64 (pos n) ≡ negsuc (0xffffffffffffffff - n)
unfolding wrap_int64
wrap_int64_negative n h k = ground arith

-- An integer times a positive number, in `int64`.
unfoldable pub scale_int64 : ℤ → ℕ → ℤ
unfolding wrap_int64
scale_int64 (pos n) k = wrap_int64 (pos (n * k))
scale_int64 (negsuc n) k = wrap_int64 (negsuc (suc n * k - 1))

abbrev add_ℤ : ℤ → ℤ → ℤ
add_ℤ (pos a) (pos b) = pos (a + b)
add_ℤ (pos a) (negsuc b) = sub_ℕ a (suc b)
add_ℤ (negsuc a) (pos b) = sub_ℕ b (suc a)
add_ℤ (negsuc a) (negsuc b) = negsuc (suc (a + b))

abbrev sub_ℤ : ℤ → ℤ → ℤ
sub_ℤ a (pos b) = add_ℤ a (sub_ℕ 0 b)
sub_ℤ a (negsuc b) = add_ℤ a (pos (suc b))

-- `+` and `-` on `int64`
unfoldable pub add_int64 : ℤ → ℤ → ℤ
unfolding wrap_int64
add_int64 a b = wrap_int64 (add_ℤ a b)

unfoldable pub sub_int64 : ℤ → ℤ → ℤ
unfolding wrap_int64
sub_int64 a b = wrap_int64 (sub_ℤ a b)

pub add_int64_fits : (a b : ℕ) → a + b ≤ max_int64 → add_int64 (pos a) (pos b) ≡ pos (a + b)
unfolding add_int64
add_int64_fits a b h = wrap_int64_fits (a + b) h

pub sub_int64_fits : (a b : ℕ) → b ≤ a → a ≤ max_int64 → sub_int64 (pos a) (pos b) ≡ pos (a - b)
unfolding sub_int64 wrap_int64
sub_int64_fits a b h k = ground arith

-- `%d` of an `int64`
unfoldable pub signed_decimal : ℤ → String
signed_decimal (pos n) = decimal n
signed_decimal (negsuc n) = "-" ++ decimal (suc n)
