-- ===== src/Text.antt =====
-- The standard library's text functions that the server uses, on UTF-8 bytes: `str::trim`, and
-- `Display for u128`.
pub mod Digits
use yeetbox.Common.{
  ℕ, zero, suc, ◌+◌, ◌/◌, ◌%◌, Bool, ◌&&◌, ◌||◌, [], ◌∷◌, reverse, Bytes, length, drop, leb, ◌==◌,
  if◌then◌else◌,
}

ascii_space : ℕ → Bool
ascii_space c = leb 9 c && leb c 13 || c == 32

-- The third byte of the spaces U+2000 to U+200A, U+2028, U+2029 and U+202F.
general_space : ℕ → Bool
general_space c = leb 0x80 c && leb c 0x8a || c == 0xa8 || c == 0xa9 || c == 0xaf

space2 : ℕ → ℕ → Bool
space2 a b = a == 0xc2 && (b == 0x85 || b == 0xa0)

space3 : ℕ → ℕ → ℕ → Bool
unfolding general_space
space3 a b c =
    a == 0xe1 && b == 0x9a && c == 0x80
    || a == 0xe2 && b == 0x80 && general_space c
    || a == 0xe2 && b == 0x81 && c == 0x9f
    || a == 0xe3 && b == 0x80 && c == 0x80

-- The number of bytes of the White_Space character that a text begins with, or 0.
pub space_at_start : Bytes → ℕ
unfolding ascii_space space2 space3
space_at_start [] = 0
space_at_start (a ∷ []) = if ascii_space a then 1 else 0
space_at_start (a ∷ b ∷ []) = if ascii_space a then 1 else if space2 a b then 2 else 0
space_at_start (a ∷ b ∷ c ∷ rest) =
    if ascii_space a then 1 else if space2 a b then 2 else if space3 a b c then 3 else 0

-- The same of a text that is given backwards.
pub space_at_end : Bytes → ℕ
unfolding ascii_space space2 space3
space_at_end [] = 0
space_at_end (a ∷ []) = if ascii_space a then 1 else 0
space_at_end (b ∷ a ∷ []) = if ascii_space b then 1 else if space2 a b then 2 else 0
space_at_end (c ∷ b ∷ a ∷ rest) =
    if ascii_space c then 1 else if space2 b c then 2 else if space3 a b c then 3 else 0

-- Spaces taken off one by one: every round takes a byte at least, so the length is fuel enough.
pub strip : (Bytes → ℕ) → ℕ → Bytes → Bytes
strip space zero s = s
strip space (suc fuel) s =
    let rest = strip space fuel (drop (space s) s) in if space s == 0 then s else rest

pub trim_start : Bytes → Bytes
unfolding strip space_at_start
trim_start s = strip space_at_start (length s) s

unfoldable pub trim : Bytes → Bytes
unfolding trim_start strip space_at_end
trim s = let t = trim_start s in reverse (strip space_at_end (length t) (reverse t))

-- Decimal digits; a u128 has 39 at most.
decimal_digits : ℕ → ℕ → Bytes → Bytes
decimal_digits zero n rest = rest
decimal_digits (suc fuel) n rest =
    let more = decimal_digits fuel (n / 10) ((48 + n % 10) ∷ rest) in
    if n / 10 == 0 then (48 + n % 10) ∷ rest else more

unfoldable pub decimal : ℕ → Bytes
unfolding decimal_digits
decimal n = decimal_digits 39 n []
