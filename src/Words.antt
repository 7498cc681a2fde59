-- ===== src/Words.antt =====
-- Machine words and their bytes: `to_be_bytes`, `from_be_bytes` and the layout of a `#[repr(C)]`
-- struct on a little-endian target, by which yeetbox-server/src/storage/database.rs builds its
-- keys and records.
pub mod RoundTrip
pub mod Order
use yeetbox.Common.{
  ℕ, zero, suc, ◌+◌, ◌-◌, ◌*◌, ◌/◌, ◌%◌, ◌^◌, List, [], ◌∷◌, reverse, Bytes, take, drop,
}

-- Addition on a u64 of a release build.
abbrev pub add64 : ℕ → ℕ → ℕ
add64 a b = (a + b) % 2 ^ 64

-- Subtraction on a u64 of a release build.
abbrev pub sub64 : ℕ → ℕ → ℕ
sub64 a b = (a + 2 ^ 64 - b) % 2 ^ 64

-- The k low bytes of a number, lowest first.
unfoldable pub to_le_bytes : ℕ → ℕ → Bytes
to_le_bytes zero n = []
to_le_bytes (suc k) n = (n % 256) ∷ to_le_bytes k (n / 256)

unfoldable pub from_le_bytes : Bytes → ℕ
from_le_bytes [] = 0
from_le_bytes (b ∷ bs) = b + 256 * from_le_bytes bs

unfoldable pub to_be_bytes : ℕ → ℕ → Bytes
unfolding to_le_bytes
to_be_bytes k n = reverse (to_le_bytes k n)

unfoldable pub from_be_bytes : Bytes → ℕ
unfolding from_le_bytes
from_be_bytes bs = from_le_bytes (reverse bs)

-- 256 ^ k, by recursion.
unfoldable pub byte_bound : ℕ → ℕ
byte_bound zero = 1
byte_bound (suc k) = 256 * byte_bound k

-- A field of `k` bytes at an offset.
unfoldable pub read_field : ℕ → ℕ → Bytes → ℕ
unfolding from_le_bytes
read_field k offset bs = from_le_bytes (take k (drop offset bs))
