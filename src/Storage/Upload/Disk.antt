-- ===== src/Storage/Upload/Disk.antt =====
-- The steps of an upload that leave the disk alone (yeetbox-server/src/storage/database.rs).
use yeetbox.Common.{
  ◌≤◌, ℕ, ◌≡◌, refl, ◌∙◌, Bool, true, false, Option, none, some, String, arith, if◌then◌else◌,
}
use yeetbox.Status.{Result, ok, err, panicked}
use yeetbox.Env.{Env, DbCall, IoResult}
use yeetbox.Records.{FsRecordValue}
use yeetbox.Storage.State.{
  World, Db, Action, pure, lift, gets, read_files, ◌>>=◌, call, commit_db, now, new_ulid,
}
use yeetbox.Storage.Sequence.{get_next_id}
use yeetbox.Storage.Request.{UploadArg}
use yeetbox.Storage.Upload.{file_id_for, new_file_record, new_file_version}

-- The disk is as before, and the place of the blobs; calls may have been made.
pub record KeepsDisk ⦃E : Env⦄ {A : Type 0} (m : Action A) : Type 0 where
  pub at :
      (s : World)
      → ((m s).1.disk ≡ s.disk) × ((m s).1.blobs_path ≡ s.blobs_path) × (s.tick ≤ (m s).1.tick)

module _ ⦃E : Env⦄ where
  pub KeepsDisk-pure : {A : Type 0} (a : A) → KeepsDisk (pure a)
  unfolding pure
  KeepsDisk-pure a = record { at = λ s. (refl, refl, omega arith) }

  pub KeepsDisk-lift : {A : Type 0} (r : Result A) → KeepsDisk (lift r)
  unfolding lift
  KeepsDisk-lift r = record { at = λ s. (refl, refl, omega arith) }

  pub KeepsDisk-gets : {A : Type 0} (g : World → A) → KeepsDisk (gets g)
  unfolding gets
  KeepsDisk-gets g = record { at = λ s. (refl, refl, omega arith) }

  pub KeepsDisk-call : (c : DbCall) (message : String) → KeepsDisk (call c message)
  unfolding call
  KeepsDisk-call c message = record { at = λ s. (refl, refl, omega arith) }

  pub KeepsDisk-commit_db : (w : Db) (message : String) → KeepsDisk (commit_db w message)
  unfolding commit_db
  KeepsDisk-commit_db w message = record { at = λ s. (ground arith, ground arith, ground arith) }

  pub KeepsDisk-now : KeepsDisk now
  unfolding now
  KeepsDisk-now = record { at = λ s. (refl, refl, omega arith) }

  pub KeepsDisk-new_ulid : KeepsDisk new_ulid
  unfolding new_ulid
  KeepsDisk-new_ulid = record { at = λ s. (refl, refl, omega arith) }

  KeepsDisk-continue :
      {A B : Type 0} (r : Result A) (f : A → Action B)
      → ((a : A) → KeepsDisk (f a))
      → KeepsDisk (lift r >>= f)
  unfolding ◌>>=◌
  KeepsDisk-continue (ok a) f h = h a
  KeepsDisk-continue (err e) f h = record { at = λ s. (refl, refl, omega arith) }
  KeepsDisk-continue panicked f h = record { at = λ s. (refl, refl, omega arith) }

  pub KeepsDisk-bind :
      {A B : Type 0} (m : Action A) (f : A → Action B)
      → KeepsDisk m
      → ((a : A) → KeepsDisk (f a))
      → KeepsDisk (m >>= f)
  unfolding ◌>>=◌
  KeepsDisk-bind m f k h = record {
    at = λ s. (
      ((KeepsDisk-continue (m s).0 f h).at (m s).1).0 ∙ (k.at s).0,
      ((KeepsDisk-continue (m s).0 f h).at (m s).1).1 ∙ (k.at s).1,
      omega (arith, ((KeepsDisk-continue (m s).0 f h).at (m s).1).2, (k.at s).2),
    );
  }

  pub KeepsDisk-read_files : {A : Type 0} (g : E.files.Disk → IoResult A) → KeepsDisk (read_files g)
  unfolding read_files
  KeepsDisk-read_files g = record { at = λ s. (ground arith, ground arith, ground arith) }

  pub KeepsDisk-if :
      {A : Type 0} (b : Bool) (m n : Action A)
      → KeepsDisk m
      → KeepsDisk n
      → KeepsDisk (if b then m else n)
  KeepsDisk-if true m n p q = p
  KeepsDisk-if false m n p q = q

  pub ruleset disk_rules = (
    KeepsDisk-pure, KeepsDisk-lift, KeepsDisk-gets, KeepsDisk-call, KeepsDisk-commit_db,
    KeepsDisk-now, KeepsDisk-new_ulid, KeepsDisk-bind, KeepsDisk-read_files, KeepsDisk-if,
  )

  pub get_next_id-KeepsDisk : (message : String) (w : Db) → KeepsDisk (get_next_id message w)
  unfolding get_next_id
  get_next_id-KeepsDisk message w = search disk_rules depth 20

  pub file_id_for-KeepsDisk :
      (previous : Option FsRecordValue) (w : Db) → KeepsDisk (file_id_for previous w)
  unfolding file_id_for
  file_id_for-KeepsDisk none w = get_next_id-KeepsDisk _ w
  file_id_for-KeepsDisk (some r) w = search disk_rules

  pub new_file_record-KeepsDisk :
      (previous : Option FsRecordValue) (id ulid : ℕ) → KeepsDisk (new_file_record previous id ulid)
  unfolding new_file_record
  new_file_record-KeepsDisk previous id ulid = search disk_rules depth 10

  pub new_file_version-KeepsDisk : (req : UploadArg) → KeepsDisk (new_file_version req)
  unfolding new_file_version
  new_file_version-KeepsDisk req = search disk_rules

  pub KeepsDisk-disk :
      {A : Type 0} {m : Action A} {s s' : World} {r : Result A}
      → KeepsDisk m
      → m s ≡ (r, s')
      → s'.disk ≡ s.disk
  KeepsDisk-disk {A} {m} {s} k e = rw e at (k.at s).0

  pub KeepsDisk-path :
      {A : Type 0} {m : Action A} {s s' : World} {r : Result A}
      → KeepsDisk m
      → m s ≡ (r, s')
      → s'.blobs_path ≡ s.blobs_path
  KeepsDisk-path {A} {m} {s} k e = rw e at (k.at s).1

  pub KeepsDisk-tick :
      {A : Type 0} {m : Action A} {s s' : World} {r : Result A}
      → KeepsDisk m
      → m s ≡ (r, s')
      → s.tick ≤ s'.tick
  KeepsDisk-tick {A} {m} {s} k e = rw e at (k.at s).2
