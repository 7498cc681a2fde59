-- ===== src/Storage/Keeps.antt =====
-- What an operation leaves alone, one rule for each way to build one: `Leaves` says that the
-- database and the place of the blobs are as before, `IsAtomic` that they are unless it succeeds.
use yeetbox.Common.{
  ◌≡◌, refl, ◌∙◌, Bool, true, false, ◌⊎◌, inl, inr, String, if◌then◌else◌, arith, Bool-cases,
}
use yeetbox.Status.{Result, ok, err, panicked}
use yeetbox.Env.{Env, DbCall, commit, IoResult}
use yeetbox.Storage.State.{
  World, Db, Action, pure, lift, gets, ◌>>=◌, call, commit_db, change_files, write_files,
  read_files, now, new_ulid,
}

pub record Same ⦃E : Env⦄ (s s' : World) : Type 0 where
  pub same_db : s'.db ≡ s.db
  pub same_path : s'.blobs_path ≡ s.blobs_path

pub record Leaves ⦃E : Env⦄ {A : Type 0} (m : Action A) : Type 0 where
  pub at : (s : World) → Same s (m s).1

abbrev pub IsOk : {A : Type 0} → Result A → Type 0
IsOk (ok a) = Unit
IsOk (err e) = ⊥
IsOk panicked = ⊥

pub record IsAtomic ⦃E : Env⦄ {A : Type 0} (m : Action A) : Type 0 where
  pub at : (s : World) → IsOk (m s).0 ⊎ Same s (m s).1

pub Same-refl : ⦃E : Env⦄ → (s : World) → Same s s
Same-refl s = record { same_db = refl; same_path = refl }

Same-trans : ⦃E : Env⦄ → {s t u : World} → Same s t → Same t u → Same s u
Same-trans p q = record { same_db = q.same_db ∙ p.same_db; same_path = q.same_path ∙ p.same_path }

module _ ⦃E : Env⦄ where
  pub Leaves-db :
      {A : Type 0} {m : Action A} {s s' : World} {r : Result A}
      → Leaves m
      → m s ≡ (r, s')
      → s'.db ≡ s.db
  Leaves-db {A} {m} {s} l e = rw (e) at (l.at s).same_db

  pub Leaves-path :
      {A : Type 0} {m : Action A} {s s' : World} {r : Result A}
      → Leaves m
      → m s ≡ (r, s')
      → s'.blobs_path ≡ s.blobs_path
  Leaves-path {A} {m} {s} l e = rw e at (l.at s).same_path

  pub Leaves-pure : {A : Type 0} (a : A) → Leaves (pure a)
  unfolding pure
  Leaves-pure a = record { at = λ s. Same-refl s }

  pub Leaves-lift : {A : Type 0} (r : Result A) → Leaves (lift r)
  unfolding lift
  Leaves-lift r = record { at = λ s. Same-refl s }

  pub Leaves-gets : {A : Type 0} (f : World → A) → Leaves (gets f)
  unfolding gets
  Leaves-gets f = record { at = λ s. Same-refl s }

  pub Leaves-call : (c : DbCall) (message : String) → Leaves (call c message)
  unfolding call
  Leaves-call c message = record { at = λ s. record { same_db = refl; same_path = refl } }

  pub Leaves-now : Leaves now
  unfolding now
  Leaves-now = record { at = λ s. record { same_db = refl; same_path = refl } }

  pub Leaves-new_ulid : Leaves new_ulid
  unfolding new_ulid
  Leaves-new_ulid = record { at = λ s. record { same_db = refl; same_path = refl } }

  pub Leaves-change_files : (f : E.files.Disk → IoResult E.files.Disk) → Leaves (change_files f)
  unfolding change_files
  Leaves-change_files f = record {
    at = λ s. record { same_db = ground arith; same_path = ground arith };
  }

  pub Leaves-write_files :
      {A : Type 0} (f : E.files.Disk → IoResult (E.files.Disk × A)) → Leaves (write_files f)
  unfolding write_files
  Leaves-write_files f = record {
    at = λ s. record { same_db = ground arith; same_path = ground arith };
  }

  pub Leaves-read_files : {A : Type 0} (f : E.files.Disk → IoResult A) → Leaves (read_files f)
  unfolding read_files
  Leaves-read_files f = record {
    at = λ s. record { same_db = ground arith; same_path = ground arith };
  }

  Leaves-continue :
      {A B : Type 0} (r : Result A) (f : A → Action B)
      → ((a : A) → Leaves (f a))
      → Leaves (lift r >>= f)
  unfolding ◌>>=◌
  Leaves-continue (ok a) f h = h a
  Leaves-continue (err e) f h = record { at = λ s. Same-refl s }
  Leaves-continue panicked f h = record { at = λ s. Same-refl s }

  pub Leaves-bind :
      {A B : Type 0} (m : Action A) (f : A → Action B)
      → Leaves m
      → ((a : A) → Leaves (f a))
      → Leaves (m >>= f)
  unfolding ◌>>=◌
  Leaves-bind m f k h = record {
    at = λ s. Same-trans (k.at s) ((Leaves-continue (m s).0 f h).at (m s).1);
  }

  pub Leaves-if :
      {A : Type 0} (b : Bool) (m n : Action A) → Leaves m → Leaves n → Leaves (if b then m else n)
  Leaves-if true m n p q = p
  Leaves-if false m n p q = q

  pub IsAtomic-Leaves : {A : Type 0} {m : Action A} → Leaves m → IsAtomic m
  IsAtomic-Leaves k = record { at = λ s. inr (k.at s) }

  pub IsAtomic-commit_db : (w : Db) (message : String) → IsAtomic (commit_db w message)
  unfolding commit_db
  IsAtomic-commit_db w message = record {
    at = λ s. elim (Bool-cases (E.allows commit s.tick)) [
      | inl yes_ ↦ inl (rw yes_ tt)
      | inr no_ ↦ inr (rw no_ (record { same_db = refl; same_path = refl }))
    ];
  }

  IsAtomic-continue :
      {A B : Type 0} (r : Result A) (f : A → Action B)
      → ((a : A) → IsAtomic (f a))
      → IsAtomic (lift r >>= f)
  unfolding ◌>>=◌
  IsAtomic-continue (ok a) f h = h a
  IsAtomic-continue (err e) f h = record { at = λ s. inr (Same-refl s) }
  IsAtomic-continue panicked f h = record { at = λ s. inr (Same-refl s) }

  pub IsAtomic-bind :
      {A B : Type 0} (m : Action A) (f : A → Action B)
      → Leaves m
      → ((a : A) → IsAtomic (f a))
      → IsAtomic (m >>= f)
  unfolding ◌>>=◌
  IsAtomic-bind m f k h = record {
    at = λ s. elim ((IsAtomic-continue (m s).0 f h).at (m s).1) [
      | inl o ↦ inl o
      | inr same ↦ inr (Same-trans (k.at s) same)
    ];
  }

  -- What follows the last step that can fail may only return.
  pub IsAtomic-then_pure :
      {A B : Type 0} (m : Action A) (b : B) → IsAtomic m → IsAtomic (m >>= λ _. pure b)
  unfolding ◌>>=◌
  IsAtomic-then_pure m b k = record { at = λ s. ground (arith, k.at s) }

  pub IsAtomic-then_return :
      {A B : Type 0} (m : Action A) (g : A → B) → IsAtomic m → IsAtomic (m >>= λ a. pure (g a))
  unfolding ◌>>=◌
  IsAtomic-then_return m g k = record { at = λ s. ground (arith, k.at s) }

  pub IsAtomic-if :
      {A : Type 0} (b : Bool) (m n : Action A)
      → IsAtomic m
      → IsAtomic n
      → IsAtomic (if b then m else n)
  IsAtomic-if true m n p q = p
  IsAtomic-if false m n p q = q

pub ruleset leaves_rules = (
  Leaves-pure, Leaves-lift, Leaves-gets, Leaves-call, Leaves-now, Leaves-new_ulid,
  Leaves-change_files, Leaves-write_files, Leaves-read_files, Leaves-bind, Leaves-if,
)

pub ruleset atomic_rules =
    (leaves_rules, IsAtomic-commit_db, IsAtomic-bind, IsAtomic-then_pure, IsAtomic-if)
