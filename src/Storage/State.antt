-- ===== src/Storage/State.antt =====
-- The state of `DatabaseStorage` (yeetbox-server/src/storage/database.rs) and the monad of its
-- operations: state, failure and panic. The service holds its lock for a whole request, so
-- requests run one after the other. What a write transaction has written is passed on explicitly,
-- and reaches the state only by `commit`; files are changed at once.
use Prim.Native.Char.{code}
use yeetbox.Common.{
  ℕ, ◌+◌, Bool, false, Option, none, some, List, [], ◌∷◌, ◌++◌, Bytes, String, if◌then◌else◌, ◌==◌,
  ◌≡◌, refl, true, Bool-cases, inl, inr,
}
use yeetbox.Status.{internal, io, Result, ok, err, panicked}
use yeetbox.Env.{Env, DbCall, commit, IoResult, done, failed}
use yeetbox.Time64
use yeetbox.Time64.{Time64}

-- The bytes of an ASCII text.
abbrev pub codes : String → Bytes
codes String.[] = []
codes (String.◌∷◌ c s) = code c ∷ codes s

-- `FS_TABLE`, `SEQ_TABLE` and `VER_TABLE`. The last is created by the first transaction that opens
-- it for writing and commits.
pub record Db ⦃E : Env⦄ : Type 0 where
  pub fs : E.tables.Table
  pub seq : E.sequences.Table
  pub ver : Option E.tables.Table

-- `tick` numbers the calls of the environment.
pub record World ⦃E : Env⦄ : Type 0 where
  pub blobs_path : Bytes
  pub db : Db
  pub disk : E.files.Disk
  pub tick : ℕ

module _ ⦃E : Env⦄ where
  abbrev pub Action : Type 0 → Type 0
  Action A = World → Result A × World

  unfoldable pub pure : {A : Type 0} → A → Action A
  pure a s = (ok a, s)

  unfoldable pub lift : {A : Type 0} → Result A → Action A
  lift r s = (r, s)

  unfoldable pub gets : {A : Type 0} → (World → A) → Action A
  gets f s = (ok (f s), s)

  abbrev continue : {A B : Type 0} → Result A → (A → Action B) → Action B
  continue (ok a) f s = f a s
  continue (err e) f s = (err e, s)
  continue panicked f s = (panicked, s)

  infixl 10 ◌>>=◌ ◌>>◌
  -- Opening this opens `pure`, `lift` and `gets` too.
  unfoldable pub ◌>>=◌ : {A B : Type 0} → Action A → (A → Action B) → Action B
  unfolding pure lift gets
  ◌>>=◌ m f s = let (r, s') = m s in continue r f s'

  abbrev pub ◌>>◌ : {A B : Type 0} → Action A → Action B → Action B
  m >> n = m >>= λ _. n

  -- A call on the database, with the status that `map_err` makes of its error.
  unfoldable pub call : DbCall → String → Action (Unit {0})
  call c message s =
      (if E.allows c s.tick then ok tt else err (internal message), record s { tick = s.tick + 1 })

  -- `w.commit()` of a transaction that has written `w`.
  unfoldable pub commit_db : Db → String → Action (Unit {0})
  commit_db w message s =
      if E.allows commit s.tick
      then (ok tt, record s { db = w; tick = s.tick + 1 })
      else (err (internal message), record s { tick = s.tick + 1 })

  abbrev io_result : {A : Type 0} → World → IoResult (E.files.Disk × A) → Result A × World
  io_result s (done (d, a)) = (ok a, record s { disk = d })
  io_result s (failed k) = (err (io k), s)

  abbrev io_change : World → IoResult E.files.Disk → Result (Unit {0}) × World
  io_change s (done d) = (ok tt, record s { disk = d })
  io_change s (failed k) = (err (io k), s)

  abbrev io_value : {A : Type 0} → World → IoResult A → Result A × World
  io_value s (done a) = (ok a, s)
  io_value s (failed k) = (err (io k), s)

  -- A file operation under `?` that changes the disk, and one that only looks at it.
  unfoldable pub change_files : (E.files.Disk → IoResult E.files.Disk) → Action (Unit {0})
  change_files f s = io_change s (f s.disk)

  unfoldable pub write_files :
      {A : Type 0} → (E.files.Disk → IoResult (E.files.Disk × A)) → Action A
  write_files f s = io_result s (f s.disk)

  unfoldable pub read_files : {A : Type 0} → (E.files.Disk → IoResult A) → Action A
  read_files f s = io_value s (f s.disk)

  -- `Time64::now()` and `Ulid::new()`.
  unfoldable pub now : Action Time64
  unfolding Time64.now
  now s = (Time64.now (E.system_time s.tick), record s { tick = s.tick + 1 })

  unfoldable pub new_ulid : Action ℕ
  new_ulid s = (ok (E.new_ulid s.tick), record s { tick = s.tick + 1 })

  -- `DatabaseStorage::new()` on a fresh machine.
  unfoldable pub new_storage : E.files.Disk → World
  new_storage disk = record {
    blobs_path = codes "/tmp/yeetbox/blobs";
    db = record { fs = E.tables.empty; seq = E.sequences.empty; ver = none };
    disk = disk;
    tick = 0;
  }

unfoldable pub is_absolute : Bytes → Bool
is_absolute [] = false
is_absolute (c ∷ p) = c == b'/'

-- `PathBuf::push`: an absolute path replaces the one before.
unfoldable pub push : Bytes → Bytes → Bytes
unfolding is_absolute
push base p = if is_absolute p then p else base ++ (b'/' ∷ p)

again_absolute :
    (base x : Bytes)
    → is_absolute base ≡ true
    → is_absolute x ≡ false
    → is_absolute (base ++ (b'/' ∷ x)) ≡ true
unfolding is_absolute
again_absolute [] x h e = absurd (cc h)
again_absolute (c ∷ base) x h e = h

-- A path below an absolute one is absolute, so it is not changed by being pushed again.
pub push-push : (base x : Bytes) → is_absolute base ≡ true → push base (push base x) ≡ push base x
unfolding push
push-push base x h = elim (Bool-cases (is_absolute x)) [
  | inl e ↦ rw (e, e) refl
  | inr e ↦ rw (e, again_absolute base x h e) refl
]

-- `Vec::pop`
module _ {A : Type 0} where
  abbrev pub pop : List A → Option (List A × A)
  pop [] = none
  pop (x ∷ []) = some ([], x)
  pop (x ∷ y ∷ ys) = elim (pop (y ∷ ys)) [ none ↦ none | some (zs, z) ↦ some (x ∷ zs, z) ]
