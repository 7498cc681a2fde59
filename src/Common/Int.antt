-- ===== src/Common/Int.antt =====
-- Signed machine integers: `negsuc n` is -(n + 1). The casts between i32, i64 and u64.
use Prim.Native.Nat.{ℕ, suc, ◌-◌, ◌^◌, ◌≤◌}
use mathlib.Core.Path.{◌≡◌}
use native.Mathlib.Omega.{arith}
use yeetbox.Common.Tests.{ltb, if◌then◌else◌}

pub data ℤ : Type 0 where
  pos : ℕ → ℤ
  negsuc : ℕ → ℤ

-- `x as u64` of a signed integer of at most 64 bits: sign extension.
abbrev pub as_u64 : ℤ → ℕ
as_u64 (pos n) = n
as_u64 (negsuc n) = 2 ^ 64 - suc n

-- `x as i64` of a u64.
abbrev pub as_i64 : ℕ → ℤ
as_i64 n = if ltb n (2 ^ 63) then pos n else negsuc (2 ^ 64 - suc n)

-- The range of an i64.
abbrev pub IsI64 : ℤ → Type 0
IsI64 (pos n) = suc n ≤ 2 ^ 63
IsI64 (negsuc n) = suc n ≤ 2 ^ 63

pub as_i64-as_u64 : (z : ℤ) → IsI64 z → as_i64 (as_u64 z) ≡ z
as_i64-as_u64 (pos n) h = ground arith
as_i64-as_u64 (negsuc n) h = ground arith
