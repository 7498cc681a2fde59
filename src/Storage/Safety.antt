-- ===== src/Storage/Safety.antt =====
-- No operation of the storage driver panics on a well-formed database: rules for each kind of step,
-- and the operations (yeetbox-server/src/storage/database.rs).
pub mod Values
pub mod Overflow
pub mod Making
pub mod Using
use yeetbox.Common.{
  ℕ, ◌≡◌, ◌≢◌, refl, Bool, true, false, Option, none, some, String, if◌then◌else◌, Bool-cases, inl,
  inr, arith,
}
use yeetbox.Status.{Status, Result, ok, err, panicked, refuse_if, or_refuse}
use yeetbox.Time64
use yeetbox.Env.{HasClock, Env, DbCall, commit, IoResult, done, failed}
use yeetbox.Storage.State.{
  World, Db, Action, pure, lift, gets, ◌>>=◌, call, commit_db, now, new_ulid, change_files,
  write_files, read_files,
}
use yeetbox.Storage.Inversion.{later}

pub record IsCalm ⦃E : Env⦄ {A : Type 0} (m : Action A) : Type 0 where
  pub at : (s : World) → (m s).0 ≢ panicked

module _ ⦃E : Env⦄ where
  pub IsCalm-pure : {A : Type 0} (a : A) → IsCalm (pure a)
  unfolding pure
  IsCalm-pure a = record { at = λ s e. cc e }

  pub IsCalm-refuse : (c : Bool) (e : Status) → IsCalm (lift (refuse_if c e))
  unfolding lift
  IsCalm-refuse true e = record { at = λ s h. cc h }
  IsCalm-refuse false e = record { at = λ s h. cc h }

  pub IsCalm-require : {A : Type 0} (o : Option A) (e : Status) → IsCalm (lift (or_refuse o e))
  unfolding lift
  IsCalm-require none e = record { at = λ s h. cc h }
  IsCalm-require (some a) e = record { at = λ s h. cc h }

  pub IsCalm-err : {A : Type 0} (e : Status) → IsCalm (lift {A = A} (err e))
  unfolding lift
  IsCalm-err e = record { at = λ s h. cc h }

  pub IsCalm-gets : {A : Type 0} (g : World → A) → IsCalm (gets g)
  unfolding gets
  IsCalm-gets g = record { at = λ s h. cc h }

  pub IsCalm-now : HasClock E → IsCalm now
  unfolding now Time64.now
  IsCalm-now clock = record {
    at = λ s h. let (nanos, since) = clock.since_epoch s.tick in absurd (cc (rw since at h));
  }

  pub IsCalm-new_ulid : IsCalm new_ulid
  unfolding new_ulid
  IsCalm-new_ulid = record { at = λ s h. cc h }

  pub IsCalm-call : (c : DbCall) (message : String) → IsCalm (call c message)
  unfolding call
  IsCalm-call c message = record { at = λ s. ground arith }

  pub IsCalm-commit_db : (w : Db) (message : String) → IsCalm (commit_db w message)
  unfolding commit_db
  IsCalm-commit_db w message = record { at = λ s. ground arith }

  pub IsCalm-change_files : (f : E.files.Disk → IoResult E.files.Disk) → IsCalm (change_files f)
  unfolding change_files
  IsCalm-change_files f = record { at = λ s. ground arith }

  pub IsCalm-write_files :
      {A : Type 0} (f : E.files.Disk → IoResult (E.files.Disk × A)) → IsCalm (write_files f)
  unfolding write_files
  IsCalm-write_files f = record { at = λ s. ground arith }

  pub IsCalm-read_files : {A : Type 0} (f : E.files.Disk → IoResult A) → IsCalm (read_files f)
  unfolding read_files
  IsCalm-read_files f = record { at = λ s. ground arith }

  pub IsCalm-if :
      {A : Type 0} (b : Bool) (m n : Action A) → IsCalm m → IsCalm n → IsCalm (if b then m else n)
  IsCalm-if true m n p q = p
  IsCalm-if false m n p q = q

  module _ {A B : Type 0} (f : A → Action B) (s : World) where
    pub calm_bind :
        (m : Action A)
        → IsCalm m
        → ((a : A) (t : World) → m s ≡ (ok a, t) → (f a t).0 ≢ panicked)
        → ((m >>= f) s).0 ≢ panicked
    unfolding ◌>>=◌ lift
    calm_bind m calm k = go (m s).0 refl
      where
        go : (r : Result A) → (m s).0 ≡ r → (◌>>=◌ (lift r) f (m s).1).0 ≢ panicked
        go (ok a) e = k a (m s).1 (λ i. (e i, (m s).1))
        go (err x) e = λ h. cc h
        go panicked e = absurd (calm.at s e)

    pub calm_lift :
        (r : Result A)
        → r ≢ panicked
        → ((a : A) → r ≡ ok a → (f a s).0 ≢ panicked)
        → ((lift r >>= f) s).0 ≢ panicked
    unfolding ◌>>=◌ lift
    calm_lift (ok a) n k = k a refl
    calm_lift (err e) n k = λ h. cc h
    calm_lift panicked n k = absurd (n refl)

    -- The rest of a chain is calm wherever it starts.
    pub calm_lift_rest :
        (r : Result A)
        → r ≢ panicked
        → ((a : A) → r ≡ ok a → IsCalm (f a))
        → ((lift r >>= f) s).0 ≢ panicked
    calm_lift_rest r n k = calm_lift r n (λ a e. (k a e).at s)

    pub calm_require :
        (o : Option A) (e : Status)
        → ((a : A) → o ≡ some a → (f a s).0 ≢ panicked)
        → ((lift (or_refuse o e) >>= f) s).0 ≢ panicked
    unfolding ◌>>=◌ lift
    calm_require (some a) e k = k a refl
    calm_require none e k = λ h. cc h

    pub calm_gets : (g : World → A) → (f (g s) s).0 ≢ panicked → ((gets g >>= f) s).0 ≢ panicked
    unfolding ◌>>=◌ gets
    calm_gets g k = k

  module _ {B : Type 0} (f : Unit {0} → Action B) (s : World) where
    pub calm_refuse :
        (c : Bool) (e : Status)
        → (f tt s).0 ≢ panicked
        → ((lift (refuse_if c e) >>= f) s).0 ≢ panicked
    unfolding ◌>>=◌ lift
    calm_refuse true e k = λ h. cc h
    calm_refuse false e k = k

    pub calm_call :
        (c : DbCall) (message : String)
        → (f tt (later s)).0 ≢ panicked
        → ((call c message >>= f) s).0 ≢ panicked
    unfolding ◌>>=◌ call
    calm_call c message k = elim (Bool-cases (E.allows c s.tick)) [
      | inl allowed ↦ rw allowed k
      | inr refused ↦ rw refused (λ h. cc h)
    ]

  pub then_pure_calm :
      {A B : Type 0} (m : Action A) (g : A → B) (s : World)
      → (m s).0 ≢ panicked
      → ((m >>= λ a. pure (g a)) s).0 ≢ panicked
  unfolding ◌>>=◌
  then_pure_calm m g s h = ground arith

  pub lifted_calm : {A : Type 0} (r : Result A) (s : World) → r ≢ panicked → (lift r s).0 ≢ panicked
  unfolding lift
  lifted_calm r s h = h

  pub calm_if :
      {A : Type 0} (s : World) (c : Bool) (x y : Action A)
      → (x s).0 ≢ panicked
      → (y s).0 ≢ panicked
      → ((if c then x else y) s).0 ≢ panicked
  calm_if s true x y p q = p
  calm_if s false x y p q = q

  pub IsCalm-bind :
      {A B : Type 0} (m : Action A) (f : A → Action B)
      → IsCalm m
      → ((a : A) → IsCalm (f a))
      → IsCalm (m >>= f)
  IsCalm-bind m f k h = record { at = λ s. calm_bind f s m k (λ a t e. (h a).at t) }

pub ruleset calm_rules = (
  IsCalm-pure, IsCalm-refuse, IsCalm-require, IsCalm-err, IsCalm-gets, IsCalm-now, IsCalm-new_ulid,
  IsCalm-call, IsCalm-commit_db, IsCalm-change_files, IsCalm-write_files, IsCalm-read_files,
  IsCalm-if, IsCalm-bind,
)
