-- ===== src/FileDriver/State.antt =====
-- The state of `FileStorage` (yeetbox-server/src/storage/file.rs) and the monad of its operations:
-- the tree of files, failure and panic. Files are changed at once, so a failure leaves what was
-- done before it.
use yeetbox.Common.{ℕ, ◌+◌}
use yeetbox.Status.{io, Result, ok, err, panicked}
use yeetbox.Env.{IoResult, done, failed}
use yeetbox.Storage.State.{codes}
use yeetbox.FileDriver.Paths.{FilePath, components}
use yeetbox.FileDriver.Host.{Host}

-- `tick` numbers the calls of `Ulid::new`.
pub record FileWorld ⦃H : Host⦄ : Type 0 where
  pub path : FilePath
  pub disk : H.tree.Disk
  pub tick : ℕ

module _ ⦃H : Host⦄ where
  abbrev pub Action : Type 0 → Type 0
  Action A = FileWorld → Result A × FileWorld

  unfoldable pub pure : {A : Type 0} → A → Action A
  pure a s = (ok a, s)

  unfoldable pub lift : {A : Type 0} → Result A → Action A
  lift r s = (r, s)

  -- `self.path`
  unfoldable pub base_path : Action FilePath
  base_path s = (ok s.path, s)

  abbrev continue : {A B : Type 0} → Result A → (A → Action B) → Action B
  continue (ok a) f s = f a s
  continue (err e) f s = (err e, s)
  continue panicked f s = (panicked, s)

  infixl 10 ◌>>=◌ ◌>>◌
  -- Opening this opens `pure`, `lift` and `base_path` too.
  unfoldable pub ◌>>=◌ : {A B : Type 0} → Action A → (A → Action B) → Action B
  unfolding pure lift base_path
  ◌>>=◌ m f s = let (r, s') = m s in continue r f s'

  abbrev pub ◌>>◌ : {A B : Type 0} → Action A → Action B → Action B
  m >> n = m >>= λ _. n

  abbrev changed : FileWorld → IoResult H.tree.Disk → Result (Unit {0}) × FileWorld
  changed s (done d) = (ok tt, record s { disk = d })
  changed s (failed k) = (err (io k), s)

  abbrev written : {A : Type 0} → FileWorld → IoResult (H.tree.Disk × A) → Result A × FileWorld
  written s (done (d, a)) = (ok a, record s { disk = d })
  written s (failed k) = (err (io k), s)

  abbrev seen : {A : Type 0} → FileWorld → IoResult A → Result A × FileWorld
  seen s (done a) = (ok a, s)
  seen s (failed k) = (err (io k), s)

  abbrev tried : FileWorld → IoResult H.tree.Disk → Result (IoResult (Unit {0})) × FileWorld
  tried s (done d) = (ok (done tt), record s { disk = d })
  tried s (failed k) = (ok (failed k), s)

  -- A file operation under `?`: one that changes the tree, one that also gives a value, and one
  -- that only looks.
  unfoldable pub change : (H.tree.Disk → IoResult H.tree.Disk) → Action (Unit {0})
  change f s = changed s (f s.disk)

  unfoldable pub write : {A : Type 0} → (H.tree.Disk → IoResult (H.tree.Disk × A)) → Action A
  write f s = written s (f s.disk)

  unfoldable pub look : {A : Type 0} → (H.tree.Disk → IoResult A) → Action A
  look f s = seen s (f s.disk)

  -- A file operation whose result the code matches on.
  unfoldable pub try_look : {A : Type 0} → (H.tree.Disk → IoResult A) → Action (IoResult A)
  try_look f s = (ok (f s.disk), s)

  unfoldable pub try_change : (H.tree.Disk → IoResult H.tree.Disk) → Action (IoResult (Unit {0}))
  try_change f s = tried s (f s.disk)

  -- `Ulid::new()`
  unfoldable pub new_ulid : Action ℕ
  new_ulid s = (ok (H.new_ulid s.tick), record s { tick = s.tick + 1 })

  -- `FileStorage::new()` on a machine with the files.
  unfoldable pub new_file_storage : H.tree.Disk → FileWorld
  unfolding components
  new_file_storage disk = record { path = components (codes "/tmp/yeetbox"); disk = disk; tick = 0 }
