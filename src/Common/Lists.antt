-- ===== src/Common/Lists.antt =====
-- Lists measured and cut by native numbers, under the library's names, and equality of byte lists.
use Prim.Native.Nat.{ℕ, zero, suc, ◌+◌, ◌-◌, ◌≤◌, min}
use mathlib.Core.Path.{◌≡◌, refl, ap}
use mathlib.Core.Logic.{◌↔◌}
use mathlib.Core.Bool.{Bool, true, false, ◌&&◌}
use mathlib.Core.List.{List, [], ◌∷◌, ◌++◌}
use native.Mathlib.Omega.{arith}
use yeetbox.Common.Tests.{◌==◌}

module _ {ℓ} {A : Type ℓ} where
  abbrev pub length : List A → ℕ
  length [] = 0
  length (x ∷ xs) = suc (length xs)

  abbrev pub take : ℕ → List A → List A
  take zero xs = []
  take (suc n) [] = []
  take (suc n) (x ∷ xs) = x ∷ take n xs

  abbrev pub drop : ℕ → List A → List A
  drop zero xs = xs
  drop (suc n) [] = []
  drop (suc n) (x ∷ xs) = drop n xs

module _ {ℓ} {A : Type ℓ} where
  -- A list that begins what was cut off begins the whole.
  pub begins-take :
      (n : ℕ) (xs ys : List A) → xs ≡ take (length xs) (take n ys) → xs ≡ take (length xs) ys
  begins-take n [] ys h = refl
  begins-take zero (x ∷ xs) ys h = absurd (cc h)
  begins-take (suc n) (x ∷ xs) [] h = absurd (cc h)
  begins-take (suc n) (x ∷ xs) (y ∷ ys) h =
      let same : x ≡ y = cc h in
      let rest : xs ≡ take (length xs) (take n ys) = cc h in cc (same, begins-take n xs ys rest)

  pub begins-drop-take :
      (o n : ℕ) (xs ys : List A)
      → xs ≡ take (length xs) (drop o (take n ys))
      → xs ≡ take (length xs) (drop o ys)
  begins-drop-take zero n xs ys h = begins-take n xs ys h
  begins-drop-take (suc o) n [] ys h = refl
  begins-drop-take (suc o) zero (x ∷ xs) ys h = absurd (cc h)
  begins-drop-take (suc o) (suc n) (x ∷ xs) [] h = absurd (cc h)
  begins-drop-take (suc o) (suc n) (x ∷ xs) (y ∷ ys) h = begins-drop-take o n (x ∷ xs) ys h

  pub length-append : (xs ys : List A) → length (xs ++ ys) ≡ length xs + length ys
  length-append [] ys = omega arith
  length-append (x ∷ xs) ys = omega (arith, length-append xs ys)

  pub length-take : (n : ℕ) (xs : List A) → length (take n xs) ≡ min n (length xs)
  length-take zero xs = omega arith
  length-take (suc n) [] = omega arith
  length-take (suc n) (x ∷ xs) = omega (arith, length-take n xs)

  pub length-drop : (n : ℕ) (xs : List A) → length (drop n xs) ≡ length xs - n
  length-drop zero xs = omega arith
  length-drop (suc n) [] = omega arith
  length-drop (suc n) (x ∷ xs) = omega (arith, length-drop n xs)

  pub take-append_more :
      (xs : List A) (n : ℕ) (ys : List A) → take (length xs + n) (xs ++ ys) ≡ xs ++ take n ys
  take-append_more [] n ys = ap (λ m. take m ys) (omega arith)
  take-append_more (x ∷ xs) n ys =
      let e : suc (length xs) + n ≡ suc (length xs + n) = omega arith in
      rw (e) (ap (λ zs. x ∷ zs) (take-append_more xs n ys))

  pub take-append : (xs ys : List A) → take (length xs) (xs ++ ys) ≡ xs
  take-append [] ys = refl
  take-append (x ∷ xs) ys = ap (λ zs. x ∷ zs) (take-append xs ys)

  pub drop-append : (xs ys : List A) → drop (length xs) (xs ++ ys) ≡ ys
  drop-append [] ys = refl
  drop-append (x ∷ xs) ys = drop-append xs ys

  pub length-zero_nil : (xs : List A) → length xs ≡ 0 → xs ≡ []
  length-zero_nil [] h = refl
  length-zero_nil (x ∷ xs) h = absurd (omega arith)

-- A Rust `Vec<u8>`, and a `String` by its UTF-8 bytes.
abbrev pub Bytes : Type 0
Bytes = List ℕ

abbrev pub bytes_eq : Bytes → Bytes → Bool
bytes_eq [] [] = true
bytes_eq [] (y ∷ ys) = false
bytes_eq (x ∷ xs) [] = false
bytes_eq (x ∷ xs) (y ∷ ys) = x == y && bytes_eq xs ys

pub bytes_eq_iff : (xs ys : Bytes) → (bytes_eq xs ys ≡ true) ↔ (xs ≡ ys)
bytes_eq_iff [] [] = ground arith
bytes_eq_iff [] (y ∷ ys) = ground arith
bytes_eq_iff (x ∷ xs) [] = ground arith
bytes_eq_iff (x ∷ xs) (y ∷ ys) = ground (arith, bytes_eq_iff xs ys)

pub bytes_eq_refl : (xs : Bytes) → bytes_eq xs xs ≡ true
bytes_eq_refl xs = (bytes_eq_iff xs xs).1 refl

-- Every element is a byte.
abbrev pub AllBytes : Bytes → Type 0
AllBytes [] = Unit
AllBytes (b ∷ bs) = (suc b ≤ 256) × AllBytes bs

pub AllBytes-append : (xs ys : Bytes) → AllBytes xs → AllBytes ys → AllBytes (xs ++ ys)
AllBytes-append [] ys h k = k
AllBytes-append (x ∷ xs) ys h k = (h.0, AllBytes-append xs ys h.1 k)
