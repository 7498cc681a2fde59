-- ===== src/Text/Digits.antt =====
-- The text of a number (`Display for u128` of the standard library) is of digits.
use yeetbox.Common.{
  ℕ, zero, suc, ◌+◌, ◌/◌, ◌%◌, ◌≡◌, refl, Bool, true, ◌&&◌, [], ◌∷◌, Bytes, leb, ◌==◌, arith,
  Bool-cases, inl, inr,
}
use yeetbox.Text.{decimal_digits, decimal}

abbrev pub is_digit : ℕ → Bool
is_digit c = leb b'0' c && leb c b'9'

abbrev pub all_digits : Bytes → Bool
all_digits [] = true
all_digits (c ∷ s) = is_digit c && all_digits s

decimal_digits-digits :
    (fuel n : ℕ) (rest : Bytes)
    → all_digits rest ≡ true
    → all_digits (decimal_digits fuel n rest) ≡ true
unfolding decimal_digits
decimal_digits-digits zero n rest h = h
decimal_digits-digits (suc fuel) n rest h =
    let more : all_digits ((48 + n % 10) ∷ rest) ≡ true = ground arith in
    elim (Bool-cases (n / 10 == 0)) [
      | inl last ↦ rw last more
      | inr goes_on ↦ rw goes_on (decimal_digits-digits fuel (n / 10) ((48 + n % 10) ∷ rest) more)
    ]

pub decimal-digits : (n : ℕ) → all_digits (decimal n) ≡ true
unfolding decimal
decimal-digits n = decimal_digits-digits 39 n [] refl
