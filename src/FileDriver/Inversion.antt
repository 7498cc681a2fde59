-- ===== src/FileDriver/Inversion.antt =====
-- What a success of a chain of steps says of its first step, for each kind of step of the file
-- driver's monad: rules that take the rest of an argument.
use yeetbox.Common.{◌≡◌, refl, ap, Bool, true, false, Option, none, some, if◌then◌else◌}
use yeetbox.Status.{Status, Result, ok, err, panicked, refuse_if, or_refuse}
use yeetbox.Env.{IoResult, done, failed}
use yeetbox.FileDriver.Paths.{FilePath}
use yeetbox.FileDriver.Host.{Host}
use yeetbox.FileDriver.State.{
  FileWorld, Action, pure, lift, base_path, ◌>>=◌, change, write, look, try_look,
}

module _ ⦃H : Host⦄ where
  module _ {A B P : Type 0} (f : A → Action B) (s : FileWorld) {s' : FileWorld} {b : B} where
    pub after_bind :
        (m : Action A)
        → ((a : A) (t : FileWorld) → m s ≡ (ok a, t) → f a t ≡ (ok b, s') → P)
        → (m >>= f) s ≡ (ok b, s')
        → P
    unfolding ◌>>=◌
    after_bind m k h = go (m s).0 refl h
      where
        go : (r : Result A) → (m s).0 ≡ r → ◌>>=◌ (lift r) f (m s).1 ≡ (ok b, s') → P
        go (ok a) e h' = k a (m s).1 (λ i. (e i, (m s).1)) h'
        go (err x) e h' = absurd (cc h')
        go panicked e h' = absurd (cc h')

    pub after_lift :
        (r : Result A)
        → ((a : A) → r ≡ ok a → f a s ≡ (ok b, s') → P)
        → (lift r >>= f) s ≡ (ok b, s')
        → P
    unfolding ◌>>=◌
    after_lift (ok a) k h = k a refl h
    after_lift (err e) k h = absurd (cc)
    after_lift panicked k h = absurd (cc)

    pub after_require :
        (o : Option A) (e : Status)
        → ((a : A) → o ≡ some a → f a s ≡ (ok b, s') → P)
        → (lift (or_refuse o e) >>= f) s ≡ (ok b, s')
        → P
    unfolding ◌>>=◌
    after_require (some a) e k h = k a refl h
    after_require none e k h = absurd (cc)

    pub after_look :
        (g : H.tree.Disk → IoResult A)
        → ((a : A) → g s.disk ≡ done a → f a s ≡ (ok b, s') → P)
        → (look g >>= f) s ≡ (ok b, s')
        → P
    unfolding ◌>>=◌ look
    after_look g k h = go (g s.disk) refl h
      where
        go : (r : IoResult A) → g s.disk ≡ r → ◌>>=◌ (look (λ d. r)) f s ≡ (ok b, s') → P
        go (done a) e h' = k a e h'
        go (failed x) e h' = absurd (cc h')

    pub after_write :
        (g : H.tree.Disk → IoResult (H.tree.Disk × A))
        → ((d : H.tree.Disk) (a : A)
            → g s.disk ≡ done (d, a)
            → f a (record s { disk = d }) ≡ (ok b, s')
            → P)
        → (write g >>= f) s ≡ (ok b, s')
        → P
    unfolding ◌>>=◌ write
    after_write g k h = go (g s.disk) refl h
      where
        go :
            (r : IoResult (H.tree.Disk × A))
            → g s.disk ≡ r
            → ◌>>=◌ (write (λ d. r)) f s ≡ (ok b, s')
            → P
        go (done (d, a)) e h' = k d a e h'
        go (failed x) e h' = absurd (cc h')

  module _ {A B P : Type 0} (f : IoResult A → Action B) (s : FileWorld) {s' : FileWorld}
      {b : B} where
    pub after_try_look :
        (g : H.tree.Disk → IoResult A)
        → (f (g s.disk) s ≡ (ok b, s') → P)
        → (try_look g >>= f) s ≡ (ok b, s')
        → P
    unfolding ◌>>=◌ try_look
    after_try_look g k h = k h

  module _ {B P : Type 0} (f : FilePath → Action B) (s : FileWorld) {s' : FileWorld} {b : B} where
    pub after_base : (f s.path s ≡ (ok b, s') → P) → (base_path >>= f) s ≡ (ok b, s') → P
    unfolding ◌>>=◌
    after_base k h = k h

  module _ {B P : Type 0} (f : Unit {0} → Action B) (s : FileWorld) {s' : FileWorld} {b : B} where
    pub after_refuse :
        (c : Bool) (e : Status)
        → (c ≡ false → f tt s ≡ (ok b, s') → P)
        → (lift (refuse_if c e) >>= f) s ≡ (ok b, s')
        → P
    unfolding ◌>>=◌
    after_refuse false e k h = k refl h
    after_refuse true e k h = absurd (cc)

    pub after_change :
        (g : H.tree.Disk → IoResult H.tree.Disk)
        → ((d : H.tree.Disk) → g s.disk ≡ done d → f tt (record s { disk = d }) ≡ (ok b, s') → P)
        → (change g >>= f) s ≡ (ok b, s')
        → P
    unfolding ◌>>=◌ change
    after_change g k h = go (g s.disk) refl h
      where
        go :
            (r : IoResult H.tree.Disk) → g s.disk ≡ r → ◌>>=◌ (change (λ d. r)) f s ≡ (ok b, s') → P
        go (done d) e h' = k d e h'
        go (failed x) e h' = absurd (cc h')

  module _ {A P : Type 0} (s : FileWorld) {s' : FileWorld} {a' : A} where
    pub at_return : (a : A) → (a ≡ a' → s ≡ s' → P) → pure a s ≡ (ok a', s') → P
    unfolding pure
    at_return a k h = k (cc) (ap (λ (r : Result A × FileWorld). r.1) h)

  module _ {A P : Type 0} (s : FileWorld) {r : Result A × FileWorld} (x y : Action A) where
    pub after_unless : (c : Bool) → c ≡ false → (y s ≡ r → P) → (if c then x else y) s ≡ r → P
    after_unless false e k h = k h
    after_unless true e k h = absurd (cc e)

    pub after_when : (c : Bool) → c ≡ true → (x s ≡ r → P) → (if c then x else y) s ≡ r → P
    after_when false e k h = absurd (cc e)
    after_when true e k h = k h
