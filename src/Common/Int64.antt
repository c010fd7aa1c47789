-- ===== src/Common/Int64.antt =====
-- Go's int64: an integer kept in range by wrapping modulo 2 ^ 64, and the cases where it is exact.
use golang_predix.Common.Tests.{ltb, if◌then◌else◌}
use golang_predix.Common.Int.{ℤ, pos, negsuc, pos_part, neg_part, ◌+ℤ◌, ◌-ℤ◌, ◌*ℤ◌}
use Prim.Native.Nat.{ℕ, ◌+◌, ◌-◌, ◌*◌, ◌%◌, ◌^◌, ◌≤◌, ◌<◌}
use mathlib.Core.Path.{◌≡◌}
use native.Mathlib.Omega.{arith}

abbrev pub word : ℕ
word = 2 ^ 64

-- One more than the largest int64.
abbrev pub int64_limit : ℕ
int64_limit = 2 ^ 63

-- The two's complement pattern of an integer.
abbrev pattern_of : ℤ → ℕ
pattern_of (pos n) = n % word
pattern_of (negsuc n) = word - 1 - n % word

-- The int64 with a pattern.
abbrev of_pattern : ℕ → ℤ
of_pattern w = if ltb w int64_limit then pos w else negsuc (word - 1 - w)

unfoldable pub wrap64 : ℤ → ℤ
wrap64 z = of_pattern (pattern_of z)

unfoldable pub add64 : ℤ → ℤ → ℤ
unfolding wrap64 ◌+ℤ◌
add64 a b = wrap64 (a +ℤ b)

unfoldable pub sub64 : ℤ → ℤ → ℤ
unfolding wrap64 ◌-ℤ◌
sub64 a b = wrap64 (a -ℤ b)

unfoldable pub mul64 : ℤ → ℤ → ℤ
unfolding wrap64 ◌*ℤ◌
mul64 a b = wrap64 (a *ℤ b)

pub wrap64-pos : (n : ℕ) → n < int64_limit → wrap64 (pos n) ≡ pos n
unfolding wrap64
wrap64-pos n h = ground arith

pub wrap64-negsuc : (n : ℕ) → n < int64_limit → wrap64 (negsuc n) ≡ negsuc n
unfolding wrap64
wrap64-negsuc n h = ground arith

pub add64-pos : (a b : ℕ) → a + b < int64_limit → add64 (pos a) (pos b) ≡ pos (a + b)
unfolding add64
add64-pos a b h = ground arith

pub sub64-pos : (a b : ℕ) → b ≤ a → a < int64_limit → sub64 (pos a) (pos b) ≡ pos (a - b)
unfolding sub64
sub64-pos a b h k = ground arith

pub mul64-pos : (a b : ℕ) → a * b < int64_limit → mul64 (pos a) (pos b) ≡ pos (a * b)
unfolding mul64
mul64-pos a b h = ground arith

-- The same in terms of the two parts, for values that are known not to be negative.
abbrev pub IsNonneg : ℤ → Type 0
IsNonneg z = neg_part z ≡ 0

pub add64_nonneg :
    (a b : ℤ)
    → IsNonneg a
    → IsNonneg b
    → pos_part a + pos_part b < int64_limit
    → add64 a b ≡ pos (pos_part a + pos_part b)
add64_nonneg (pos a) (pos b) ha hb h = add64-pos a b h
add64_nonneg (pos a) (negsuc b) ha hb h = absurd (omega arith)
add64_nonneg (negsuc a) b ha hb h = absurd (omega arith)

pub sub64_nonneg :
    (a b : ℤ)
    → IsNonneg a
    → IsNonneg b
    → pos_part b ≤ pos_part a
    → pos_part a < int64_limit
    → sub64 a b ≡ pos (pos_part a - pos_part b)
sub64_nonneg (pos a) (pos b) ha hb h k = sub64-pos a b h k
sub64_nonneg (pos a) (negsuc b) ha hb h k = absurd (omega arith)
sub64_nonneg (negsuc a) b ha hb h k = absurd (omega arith)

pub mul64_nonneg :
    (a b : ℤ)
    → IsNonneg a
    → IsNonneg b
    → pos_part a * pos_part b < int64_limit
    → mul64 a b ≡ pos (pos_part a * pos_part b)
mul64_nonneg (pos a) (pos b) ha hb h = mul64-pos a b h
mul64_nonneg (pos a) (negsuc b) ha hb h = absurd (omega arith)
mul64_nonneg (negsuc a) b ha hb h = absurd (omega arith)
