-- ===== src/Status.antt =====
-- How a request ends: with a value, with a `tonic::Status`, or with a panic, and chains of steps
-- that may end it.
use yeetbox.Common.{ℕ, Bool, true, false, Option, none, some, String, ◌≡◌, ◌≢◌, refl}

-- The constructors of `tonic::Status` that the server calls. `io k` is the status that tonic makes
-- of an `std::io::Error` of kind `k`, where the code uses `?` on a file operation.
pub data Status : Type 0 where
  invalid_argument : String → Status
  internal : String → Status
  not_found : String → Status
  already_exists : String → Status
  io : ℕ → Status

-- `panicked` is `unimplemented!()`, a slice out of range, or `unwrap` of a failure.
pub data Result (A : Type 0) : Type 0 where
  panicked : Result A
  err : Status → Result A
  ok : A → Result A

module _ {A B : Type 0} where
  infixl 5 ◌>>=◌
  -- `?`
  abbrev pub ◌>>=◌ : Result A → (A → Result B) → Result B
  panicked >>= k = panicked
  err status >>= k = err status
  ok value >>= k = k value

module _ {B : Type 0} where
  infixl 5 ◌>>◌
  -- A check before the rest.
  abbrev pub ◌>>◌ : Result (Unit {0}) → Result B → Result B
  check >> rest = check >>= λ _. rest

-- `if c { return Err(e); }`
abbrev pub refuse_if : Bool → Status → Result (Unit {0})
refuse_if true e = err e
refuse_if false e = ok tt

-- A check of the compiler's, or of the library's, that panics.
abbrev pub panic_if : Bool → Result (Unit {0})
panic_if true = panicked
panic_if false = ok tt

-- `ok_or(e)?`, or `map_err(|_| e)?` where `none` is the failure.
abbrev pub or_refuse : {A : Type 0} → Option A → Status → Result A
or_refuse none e = err e
or_refuse (some a) e = ok a

abbrev pub is_some : {A : Type 0} → Option A → Bool
is_some none = false
is_some (some a) = true

module _ {A B : Type 0} where
  -- The value that the first step of a successful chain has passed on.
  pub >>=-eq-ok :
      (first : Result A) (k : A → Result B) {result : B}
      → (first >>= k) ≡ ok result
      → (value : A) × (first ≡ ok value) × (k value ≡ ok result)
  >>=-eq-ok panicked k e = absurd (cc e)
  >>=-eq-ok (err status) k e = absurd (cc e)
  >>=-eq-ok (ok value) k e = (value, refl, e)

  -- A chain panics only where one of its steps does.
  pub >>=-not_panicked :
      (first : Result A) (k : A → Result B)
      → first ≢ panicked
      → ((value : A) → k value ≢ panicked)
      → (first >>= k) ≢ panicked
  >>=-not_panicked panicked k h rest = absurd (h refl)
  >>=-not_panicked (err status) k h rest = λ e. cc e
  >>=-not_panicked (ok value) k h rest = rest value

pub none_of_is_some : {A : Type 0} (o : Option A) → is_some o ≡ false → o ≡ none
none_of_is_some none h = refl
none_of_is_some (some a) h = cc
