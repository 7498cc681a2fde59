-- ===== src/FileDriver/Numbers.antt =====
-- `format!("{:012}", n)` and `str::parse::<u64>` of the standard library, by which
-- yeetbox-server/src/storage/file.rs writes and reads the numbers of versions, and how `upload`
-- finds the latest.
use yeetbox.Common.{
  ℕ, zero, suc, ◌+◌, ◌-◌, ◌*◌, ◌^◌, ◌&&◌, Option, none, some, [], ◌∷◌, ◌++◌, Bytes, length, not,
  reverse, ltb, ◌==◌, if◌then◌else◌,
}
use yeetbox.Text.{decimal}
use yeetbox.Text.Digits.{is_digit}
use yeetbox.Status.{Result, internal, refuse_if, or_refuse, ◌>>=◌, ◌>>◌}
use yeetbox.Authn.{from_utf8}
use yeetbox.FileDriver.Paths.{FilePath}

abbrev pub zeros : ℕ → Bytes
zeros zero = []
zeros (suc n) = b'0' ∷ zeros n

unfoldable pub pad12 : ℕ → Bytes
unfolding decimal
pad12 n = let digits = decimal n in zeros (12 - length digits) ++ digits

-- The digits after a number that has been read; a value that leaves the word is an error.
unfoldable pub parse_digits : ℕ → Bytes → Option ℕ
parse_digits n [] = some n
parse_digits n (c ∷ cs) =
    let rest = parse_digits (n * 10 + (c - b'0')) cs in
    if is_digit c && ltb (n * 10 + (c - b'0')) (2 ^ 64) then rest else none

abbrev some_digits : Bytes → Option ℕ
some_digits [] = none
some_digits (c ∷ cs) = parse_digits 0 (c ∷ cs)

-- One plus sign may stand in front.
unfoldable pub parse_u64 : Bytes → Option ℕ
unfolding parse_digits
parse_u64 [] = none
parse_u64 (c ∷ cs) = if c == b'+' then some_digits cs else some_digits (c ∷ cs)

-- The component before the last: a path is given from its end, as `components().rev()` does.
abbrev pub before_last : FilePath → Option Bytes
before_last [] = none
before_last (last ∷ []) = none
before_last (last ∷ c ∷ p) = some c

-- The number of the major version in the path of a version's file.
unfoldable pub latest_major : FilePath → Result ℕ
unfolding parse_u64 from_utf8
latest_major path = do
  name ← or_refuse (before_last (reverse path)) (internal ".head symlink is invalid")
  refuse_if (not (from_utf8 name)) (internal "major file name invalid")
  or_refuse (parse_u64 name) (internal "major file name invalid")
