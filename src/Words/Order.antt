-- ===== src/Words/Order.antt =====
-- The order in which the database keeps byte strings is that of the big-endian numbers they begin
-- with.
use mathlib.Core.List.{reverse-append}
use yeetbox.Common.{
  ℕ, zero, suc, ◌+◌, ◌*◌, ◌/◌, ◌%◌, ◌^◌, ◌≤◌, ◌<◌, ◌≡◌, refl, sym, ap, ◌∙◌, true, not, ◌&&◌, [],
  ◌∷◌, ◌++◌, reverse, Bytes, length, AllBytes, ltb, ◌==◌, arith, if◌then◌else◌,
}
use yeetbox.Env.{bytes_lt, in_range}
use yeetbox.Words.{add64, to_le_bytes, from_le_bytes, from_be_bytes, to_be_bytes, byte_bound}
use yeetbox.Words.RoundTrip.{
  from_be_bytes-to_be_bytes_le, length-to_be_bytes, length-reverse, to_be_bytes-AllBytes,
}

-- The number that the bytes are, the highest first.
be_value : Bytes → ℕ
be_value [] = 0
be_value (b ∷ bs) = b * byte_bound (length bs) + be_value bs

be_value-lt : (bs : Bytes) → AllBytes bs → be_value bs < byte_bound (length bs)
unfolding be_value byte_bound
be_value-lt [] h = omega arith
be_value-lt (b ∷ bs) h = scaled b (byte_bound (length bs)) (be_value bs) h.0 (be_value-lt bs h.1)
  where
    scaled : (x n v : ℕ) → suc x ≤ 256 → v < n → x * n + v < 256 * n
    scaled x n v h k = grind arith

from_le_bytes-snoc :
    (bs : Bytes) (b : ℕ)
    → from_le_bytes (bs ++ (b ∷ [])) ≡ b * byte_bound (length bs) + from_le_bytes bs
unfolding from_le_bytes byte_bound
from_le_bytes-snoc [] b = omega arith
from_le_bytes-snoc (c ∷ bs) b = grind (arith, from_le_bytes-snoc bs b)

from_be_bytes-be_value : (bs : Bytes) → from_be_bytes bs ≡ be_value bs
unfolding from_be_bytes be_value from_le_bytes
from_be_bytes-be_value [] = refl
from_be_bytes-be_value (b ∷ bs) =
    ap from_le_bytes (reverse-append (b ∷ []) bs)
    ∙ from_le_bytes-snoc (reverse bs) b
    ∙ rw (length-reverse bs) (ap (λ n. b * byte_bound (length bs) + n) (from_be_bytes-be_value bs))

scaled_lt : (x y n v : ℕ) → v < n → x < y → x * n + v < y * n
scaled_lt x y n v h k = grind arith

lex_step :
    (x y n v w : ℕ)
    → v < n
    → w < n
    → (if ltb x y then true else x == y && ltb v w) ≡ ltb (x * n + v) (y * n + w)
lex_step x y n v w h k = ground (arith, scaled_lt x y n v, scaled_lt y x n w)

-- A string is compared by the number that it begins with.
bytes_lt-prefix :
    (xs rest ys : Bytes)
    → length xs ≡ length ys
    → AllBytes xs
    → AllBytes ys
    → bytes_lt (xs ++ rest) ys ≡ ltb (be_value xs) (be_value ys)
unfolding be_value
bytes_lt-prefix [] [] [] e h k = ground arith
bytes_lt-prefix [] (r ∷ rest) [] e h k = ground arith
bytes_lt-prefix [] rest (y ∷ ys) e h k = absurd (omega arith)
bytes_lt-prefix (x ∷ xs) rest [] e h k = absurd (omega arith)
bytes_lt-prefix (x ∷ xs) rest (y ∷ ys) e h k =
    let same : length xs ≡ length ys = omega arith in
    rw (bytes_lt-prefix xs rest ys same h.1 k.1, same)
      (lex_step x y (byte_bound (length ys)) (be_value xs) (be_value ys)
        (rw same at (be_value-lt xs h.1)) (be_value-lt ys k.1))

-- The bytes hold the number up to a multiple of their bound.
to_le_bytes_rest : (k n : ℕ) → (q : ℕ) × (n ≡ from_le_bytes (to_le_bytes k n) + byte_bound k * q)
unfolding to_le_bytes from_le_bytes byte_bound
to_le_bytes_rest zero n = (n, omega arith)
to_le_bytes_rest (suc k) n =
    let (q, e) = to_le_bytes_rest k (n / 256) in
    (q, regroup n (from_le_bytes (to_le_bytes k (n / 256))) (byte_bound k) q e)
  where
    regroup : (n v b q : ℕ) → n / 256 ≡ v + b * q → n ≡ n % 256 + 256 * v + 256 * b * q
    regroup n v b q e = grind arith

to_be_bytes-value : (n : ℕ) → be_value (to_be_bytes 8 n) ≡ n % 2 ^ 64
unfolding byte_bound
to_be_bytes-value n =
    let (q, e) = to_le_bytes_rest 8 n in
    let same : be_value (to_be_bytes 8 n) ≡ from_le_bytes (to_le_bytes 8 n) =
      sym (from_be_bytes-be_value (to_be_bytes 8 n)) ∙ from_be_bytes-to_be_bytes_le 8 n in
    let small : be_value (to_be_bytes 8 n) < byte_bound 8 =
      rw (length-to_be_bytes 8 n) at (be_value-lt (to_be_bytes 8 n) (to_be_bytes-AllBytes 8 n)) in
    omega (arith, e, same, small)

between :
    (v n : ℕ)
    → v < 2 ^ 64
    → n < 2 ^ 64
    → (not (ltb v n) && ltb v ((n + 1) % 2 ^ 64)) ≡ (v == n && ltb (n + 1) (2 ^ 64))
between v n h k = ground arith

-- The keys from the eight bytes of a number up to those of the next are those that begin with the
-- bytes of the number, if the next is a u64; else there are none.
pub in_range-next :
    (n p : ℕ) (name : Bytes)
    → in_range (to_be_bytes 8 n) (to_be_bytes 8 (add64 n 1)) (to_be_bytes 8 p ++ name)
      ≡ (p % 2 ^ 64 == n % 2 ^ 64 && ltb (n % 2 ^ 64 + 1) (2 ^ 64))
in_range-next n p name =
    let below = λ (m : ℕ).
      bytes_lt-prefix (to_be_bytes 8 p) name (to_be_bytes 8 m)
        (length-to_be_bytes 8 p ∙ sym (length-to_be_bytes 8 m)) (to_be_bytes-AllBytes 8 p)
        (to_be_bytes-AllBytes 8 m) in
    let next : add64 n 1 % 2 ^ 64 ≡ (n % 2 ^ 64 + 1) % 2 ^ 64 = omega arith in
    rw
      (
        below n,
        below (add64 n 1),
        to_be_bytes-value p,
        to_be_bytes-value n,
        to_be_bytes-value (add64 n 1),
        next,
      )
      (between (p % 2 ^ 64) (n % 2 ^ 64) (omega arith) (omega arith))
