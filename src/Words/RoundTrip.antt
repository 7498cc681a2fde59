-- ===== src/Words/RoundTrip.antt =====
-- A word survives its bytes, in both byte orders and both ways.
use mathlib.Core.List.{reverse-reverse, reverse_aux}
use yeetbox.Common.{
  ℕ, zero, suc, ◌+◌, ◌*◌, ◌/◌, ◌%◌, ◌<◌, ◌≡◌, refl, ap, ◌∙◌, [], ◌∷◌, reverse, Bytes, length,
  AllBytes, arith,
}
use yeetbox.Words.{to_le_bytes, from_le_bytes, to_be_bytes, from_be_bytes, byte_bound}

pub from_le_bytes-to_le_bytes : (k n : ℕ) → n < byte_bound k → from_le_bytes (to_le_bytes k n) ≡ n
unfolding to_le_bytes from_le_bytes byte_bound
from_le_bytes-to_le_bytes zero n h = omega arith
from_le_bytes-to_le_bytes (suc k) n h =
    omega (arith, from_le_bytes-to_le_bytes k (n / 256) (omega arith))

pub to_le_bytes-from_le_bytes :
    (bs : Bytes) → AllBytes bs → to_le_bytes (length bs) (from_le_bytes bs) ≡ bs
unfolding to_le_bytes from_le_bytes
to_le_bytes-from_le_bytes [] h = refl
to_le_bytes-from_le_bytes (b ∷ bs) h = rw (head, tail, to_le_bytes-from_le_bytes bs h.1)
  where
    head : (b + 256 * from_le_bytes bs) % 256 ≡ b
    head = omega arith

    tail : (b + 256 * from_le_bytes bs) / 256 ≡ from_le_bytes bs
    tail = omega arith

pub length-to_le_bytes : (k n : ℕ) → length (to_le_bytes k n) ≡ k
unfolding to_le_bytes
length-to_le_bytes zero n = refl
length-to_le_bytes (suc k) n = ap suc (length-to_le_bytes k (n / 256))

pub to_le_bytes-AllBytes : (k n : ℕ) → AllBytes (to_le_bytes k n)
unfolding to_le_bytes
to_le_bytes-AllBytes zero n = tt
to_le_bytes-AllBytes (suc k) n = (omega arith, to_le_bytes-AllBytes k (n / 256))

length-reverse_aux : (xs ys : Bytes) → length (reverse_aux xs ys) ≡ length xs + length ys
length-reverse_aux [] ys = omega arith
length-reverse_aux (x ∷ xs) ys = omega (arith, length-reverse_aux xs (x ∷ ys))

reverse_aux-AllBytes : (xs ys : Bytes) → AllBytes xs → AllBytes ys → AllBytes (reverse_aux xs ys)
reverse_aux-AllBytes [] ys h k = k
reverse_aux-AllBytes (x ∷ xs) ys h k = reverse_aux-AllBytes xs (x ∷ ys) h.1 (h.0, k)

pub length-reverse : (bs : Bytes) → length (reverse bs) ≡ length bs
length-reverse bs = omega (arith, length-reverse_aux bs [])

pub length-to_be_bytes : (k n : ℕ) → length (to_be_bytes k n) ≡ k
unfolding to_be_bytes
length-to_be_bytes k n = length-reverse (to_le_bytes k n) ∙ length-to_le_bytes k n

pub from_be_bytes-to_be_bytes_le :
    (k n : ℕ) → from_be_bytes (to_be_bytes k n) ≡ from_le_bytes (to_le_bytes k n)
unfolding to_be_bytes from_be_bytes
from_be_bytes-to_be_bytes_le k n = rw reverse-reverse refl

pub from_be_bytes-to_be_bytes : (k n : ℕ) → n < byte_bound k → from_be_bytes (to_be_bytes k n) ≡ n
unfolding to_be_bytes from_be_bytes
from_be_bytes-to_be_bytes k n h = rw reverse-reverse (from_le_bytes-to_le_bytes k n h)

pub to_be_bytes-from_be_bytes :
    (bs : Bytes) → AllBytes bs → to_be_bytes (length bs) (from_be_bytes bs) ≡ bs
unfolding to_be_bytes from_be_bytes
to_be_bytes-from_be_bytes bs h = ap reverse same ∙ reverse-reverse bs
  where
    all : AllBytes (reverse bs)
    all = reverse_aux-AllBytes bs [] h tt

    same : to_le_bytes (length bs) (from_le_bytes (reverse bs)) ≡ reverse bs
    same = rw (length-reverse bs) at (to_le_bytes-from_le_bytes (reverse bs) all)

pub to_be_bytes-AllBytes : (k n : ℕ) → AllBytes (to_be_bytes k n)
unfolding to_be_bytes
to_be_bytes-AllBytes k n = reverse_aux-AllBytes (to_le_bytes k n) [] (to_le_bytes-AllBytes k n) tt
