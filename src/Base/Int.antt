-- ===== src/Base/Int.antt =====
-- Signed numbers, for durations that may be negative: `negsuc n` is -(n + 1).
use Prim.Native.Nat.{ℕ, ◌+◌, ◌-◌, ◌*◌, ◌%◌, ◌^◌, ◌≤◌}
use mathlib.Core.Path.{◌≡◌, refl}
use native.Mathlib.Omega.{arith}
use kube_argus.Base.Tests.{leb, ltb, if◌then◌else◌}

pub data ℤ : Type 0 where
  pos : ℕ → ℤ
  negsuc : ℕ → ℤ

-- The number itself, or 0 in place of a negative one.
abbrev pub not_negative : ℤ → ℕ
not_negative (pos n) = n
not_negative (negsuc n) = 0

-- a - b, as an integer.
abbrev pub sub_ℕ : ℕ → ℕ → ℤ
sub_ℕ a b = if leb b a then pos (a - b) else negsuc (b - a - 1)

-- Go's conversion to an `int64`, for the value of an integer: it wraps around.
unfoldable pub wrap64 : ℤ → ℤ
wrap64 (pos n) = let m = n % 2 ^ 64 in if ltb m (2 ^ 63) then pos m else negsuc (2 ^ 64 - 1 - m)
wrap64 (negsuc n) = let m = n % 2 ^ 64 in if ltb m (2 ^ 63) then negsuc m else pos (2 ^ 64 - 1 - m)

-- A number of seconds in nanoseconds, not wrapped around.
abbrev pub nanos : ℤ → ℤ
nanos (pos n) = pos (n * 1_000_000_000)
nanos (negsuc n) = negsuc (n * 1_000_000_000 + 999_999_999)

-- `time.Duration(n) * time.Second`
unfoldable pub seconds : ℤ → ℤ
seconds n = wrap64 (nanos n)

-- Up to 292 years the product is exact.
pub seconds_exact : (n : ℕ) → n ≤ 9_223_372_036 → seconds (pos n) ≡ pos (n * 1_000_000_000)
unfolding seconds wrap64
seconds_exact n h = ground arith

seconds_overflow : seconds (pos 9_223_372_037) ≡ negsuc 9_223_372_036_709_551_615
unfolding seconds wrap64
seconds_overflow = refl
