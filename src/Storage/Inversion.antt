-- ===== src/Storage/Inversion.antt =====
-- What a success of a chain of steps says of its first step, for each kind of step: rules that take
-- the rest of an argument. The state is written out, so that it computes along the chain.
use yeetbox.Common.{
  ℕ, ◌+◌, ◌≡◌, refl, ap, Bool, true, false, Option, none, some, String, Bool-cases, inl, inr,
  if◌then◌else◌,
}
use yeetbox.Status.{Status, Result, ok, err, panicked, refuse_if, or_refuse}
use yeetbox.Env.{Env, DbCall, commit, IoResult, done, failed}
use yeetbox.Time64
use yeetbox.Time64.{Time64}
use yeetbox.Storage.State.{
  World, Db, Action, pure, lift, gets, ◌>>=◌, call, commit_db, now, new_ulid, change_files,
  write_files, read_files,
}

module _ ⦃E : Env⦄ where
  -- The state after a call of the environment that changes nothing else.
  abbrev pub later : World → World
  later s = record s { tick = s.tick + 1 }

  module _ {A B P : Type 0} (f : A → Action B) (s : World) {s' : World} {b : B} where
    pub after_bind :
        (m : Action A)
        → ((a : A) (t : World) → m s ≡ (ok a, t) → f a t ≡ (ok b, s') → P)
        → (m >>= f) s ≡ (ok b, s')
        → P
    unfolding ◌>>=◌
    after_bind m k h = go (m s).0 refl h
      where
        go : (r : Result A) → (m s).0 ≡ r → ◌>>=◌ (lift r) f (m s).1 ≡ (ok b, s') → P
        go (ok a) e h' = k a (m s).1 (λ i. (e i, (m s).1)) h'
        go (err x) e h' = absurd (cc h')
        go panicked e h' = absurd (cc h')

    pub after_lift :
        (r : Result A)
        → ((a : A) → r ≡ ok a → f a s ≡ (ok b, s') → P)
        → (lift r >>= f) s ≡ (ok b, s')
        → P
    unfolding ◌>>=◌
    after_lift (ok a) k h = k a refl h
    after_lift (err e) k h = absurd (cc)
    after_lift panicked k h = absurd (cc)

    pub after_require :
        (o : Option A) (e : Status)
        → ((a : A) → o ≡ some a → f a s ≡ (ok b, s') → P)
        → (lift (or_refuse o e) >>= f) s ≡ (ok b, s')
        → P
    unfolding ◌>>=◌
    after_require (some a) e k h = k a refl h
    after_require none e k h = absurd (cc)

    pub after_gets :
        (g : World → A) → (f (g s) s ≡ (ok b, s') → P) → (gets g >>= f) s ≡ (ok b, s') → P
    unfolding ◌>>=◌
    after_gets g k h = k h

    pub after_pure : (a : A) → (f a s ≡ (ok b, s') → P) → (pure a >>= f) s ≡ (ok b, s') → P
    unfolding ◌>>=◌
    after_pure a k h = k h

    pub after_read_files :
        (g : E.files.Disk → IoResult A)
        → ((a : A) → g s.disk ≡ done a → f a s ≡ (ok b, s') → P)
        → (read_files g >>= f) s ≡ (ok b, s')
        → P
    unfolding ◌>>=◌ read_files
    after_read_files g k h = go (g s.disk) refl h
      where
        go : (r : IoResult A) → g s.disk ≡ r → ◌>>=◌ (read_files (λ d. r)) f s ≡ (ok b, s') → P
        go (done a) e h' = k a e h'
        go (failed x) e h' = absurd (cc h')

    pub after_write_files :
        (g : E.files.Disk → IoResult (E.files.Disk × A))
        → ((d : E.files.Disk) (a : A)
            → g s.disk ≡ done (d, a)
            → f a (record s { disk = d }) ≡ (ok b, s')
            → P)
        → (write_files g >>= f) s ≡ (ok b, s')
        → P
    unfolding ◌>>=◌ write_files
    after_write_files g k h = go (g s.disk) refl h
      where
        go :
            (r : IoResult (E.files.Disk × A))
            → g s.disk ≡ r
            → ◌>>=◌ (write_files (λ d. r)) f s ≡ (ok b, s')
            → P
        go (done (d, a)) e h' = k d a e h'
        go (failed x) e h' = absurd (cc h')

  module _ {B P : Type 0} (f : Unit {0} → Action B) (s : World) {s' : World} {b : B} where
    pub after_refuse :
        (c : Bool) (e : Status)
        → (c ≡ false → f tt s ≡ (ok b, s') → P)
        → (lift (refuse_if c e) >>= f) s ≡ (ok b, s')
        → P
    unfolding ◌>>=◌
    after_refuse false e k h = k refl h
    after_refuse true e k h = absurd (cc)

    pub after_call :
        (c : DbCall) (message : String)
        → (f tt (later s) ≡ (ok b, s') → P)
        → (call c message >>= f) s ≡ (ok b, s')
        → P
    unfolding ◌>>=◌ call
    after_call c message k h = elim (Bool-cases (E.allows c s.tick)) [
      | inl allowed ↦ k (rw allowed at h)
      | inr refused ↦ absurd (cc (rw refused at h))
    ]

    pub after_change_files :
        (g : E.files.Disk → IoResult E.files.Disk)
        → ((d : E.files.Disk) → g s.disk ≡ done d → f tt (record s { disk = d }) ≡ (ok b, s') → P)
        → (change_files g >>= f) s ≡ (ok b, s')
        → P
    unfolding ◌>>=◌ change_files
    after_change_files g k h = go (g s.disk) refl h
      where
        go :
            (r : IoResult E.files.Disk)
            → g s.disk ≡ r
            → ◌>>=◌ (change_files (λ d. r)) f s ≡ (ok b, s')
            → P
        go (done d) e h' = k d e h'
        go (failed x) e h' = absurd (cc h')

  module _ {B P : Type 0} {s' : World} {b : B} where
    pub after_now :
        (f : Time64 → Action B) (s : World)
        → ((t : Time64) → Time64.now (E.system_time s.tick) ≡ ok t → f t (later s) ≡ (ok b, s') → P)
        → (now >>= f) s ≡ (ok b, s')
        → P
    unfolding ◌>>=◌ now
    after_now f s k h = go (Time64.now (E.system_time s.tick)) refl h
      where
        go :
            (r : Result Time64)
            → Time64.now (E.system_time s.tick) ≡ r
            → ◌>>=◌ (lift r) f (later s) ≡ (ok b, s')
            → P
        go (ok t) e h' = k t e h'
        go (err x) e h' = absurd (cc h')
        go panicked e h' = absurd (cc h')

    pub after_new_ulid :
        (f : ℕ → Action B) (s : World)
        → (f (E.new_ulid s.tick) (later s) ≡ (ok b, s') → P)
        → (new_ulid >>= f) s ≡ (ok b, s')
        → P
    unfolding ◌>>=◌ new_ulid
    after_new_ulid f s k h = k h

  pub after_commit :
      {P : Type 0} {s' : World} (s : World) (w : Db) (message : String)
      → (s' ≡ record s { db = w; tick = s.tick + 1 } → P)
      → commit_db w message s ≡ (ok tt, s')
      → P
  unfolding commit_db
  after_commit {P} {s'} s w message k h = elim (Bool-cases (E.allows commit s.tick)) [
    | inl allowed ↦ k (cc (rw allowed at h))
    | inr refused ↦ absurd (cc (rw refused at h))
  ]

  module _ {A P : Type 0} (s : World) {s' : World} {a' : A} where
    pub at_return : (a : A) → (a ≡ a' → s ≡ s' → P) → pure a s ≡ (ok a', s') → P
    unfolding pure
    at_return a k h = k (cc) (ap (λ (r : Result A × World). r.1) h)

  pub at_change_files :
      (g : E.files.Disk → IoResult E.files.Disk) (s s' : World)
      → change_files g s ≡ (ok tt, s')
      → (d : E.files.Disk) × (g s.disk ≡ done d) × (s' ≡ record s { disk = d })
  unfolding change_files
  at_change_files g s s' h = go (g s.disk) refl h
    where
      go :
          (r : IoResult E.files.Disk)
          → g s.disk ≡ r
          → change_files (λ d. r) s ≡ (ok tt, s')
          → (d : E.files.Disk) × (g s.disk ≡ done d) × (s' ≡ record s { disk = d })
      go (done d) e h' = (d, e, cc h')
      go (failed x) e h' = absurd (cc h')

  pub after_unless :
      {A P : Type 0} (s : World) {r : Result A × World} (c : Bool) (x y : Action A)
      → c ≡ false
      → (y s ≡ r → P)
      → (if c then x else y) s ≡ r
      → P
  after_unless s false x y e k h = k h
  after_unless s true x y e k h = absurd (cc e)

  pub after_when :
      {A P : Type 0} (s : World) {r : Result A × World} (c : Bool) (x y : Action A)
      → c ≡ true
      → (x s ≡ r → P)
      → (if c then x else y) s ≡ r
      → P
  after_when s false x y e k h = absurd (cc e)
  after_when s true x y e k h = k h
