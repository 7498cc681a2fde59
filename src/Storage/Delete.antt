-- ===== src/Storage/Delete.antt =====
-- `DatabaseStorage::delete` (yeetbox-server/src/storage/database.rs).
pub mod Effect
pub mod Versions
pub mod Blobs
pub mod Gone
use yeetbox.Common.{
  ℕ, zero, suc, Bool, false, not, Option, none, some, Bytes, length, drop, ◌==◌, ltb, if◌then◌else◌,
}
use yeetbox.Status.{invalid_argument, internal, refuse_if, or_refuse}
use yeetbox.Env.{Env, begin_read, begin_write, open_fs, open_ver}
use yeetbox.Records.{
  FsRecordValue, size_of_version, obj_type_version_blob, bytes_of_version_key, fs_record_from_bytes,
}
use yeetbox.Storage.State.{
  Db, Action, pure, lift, gets, ◌>>=◌, ◌>>◌, call, commit_db, change_files, push,
}
use yeetbox.Storage.Path.{make_key, descend_path}
use yeetbox.Storage.Sequence.{version_table}
use yeetbox.Storage.Append.{is_other_version}
use yeetbox.Storage.Request.{DeleteArg, require_target, require_name}

module _ ⦃E : Env⦄ where
  -- The blob of a removed version, if its record names one.
  unfoldable pub remove_blob : Bytes → Option Bytes → Action (Unit {0})
  remove_blob blobs_path none = pure tt
  remove_blob blobs_path (some d) =
      if ltb size_of_version (length d)
      then change_files
          (λ disk. E.files.remove_file disk (push blobs_path (drop size_of_version d)))
      else pure tt

  -- One round of the loop.
  unfoldable pub delete_version : Bytes → ℕ → ℕ → E.tables.Table → Action E.tables.Table
  delete_version blobs_path file_id version v = do
    (v', deleted) ← lift (
        or_refuse
          (E.tables.remove v
            (bytes_of_version_key (record { file_id = file_id; version = version })))
          (internal "could not delete from version table"))
    remove_blob blobs_path deleted
    pure v'

  -- The loop, from the latest version down to 0, which it includes.
  unfoldable pub delete_versions : Bytes → ℕ → ℕ → E.tables.Table → Action E.tables.Table
  delete_versions blobs_path file_id zero v = delete_version blobs_path file_id zero v
  delete_versions blobs_path file_id (suc version) v =
      delete_version blobs_path file_id (suc version) v >>= λ v'.
      delete_versions blobs_path file_id version v'

  -- The removal of what is not a versioned blob is committed; that of one with its versions is not.
  unfoldable pub delete_record : FsRecordValue → Bytes → E.tables.Table → Db → Action (Unit {0})
  delete_record file blobs_path fs w =
      if not (file.type == obj_type_version_blob)
      then commit_db (record w { fs = fs }) "could not delete folder"
      else do
        call open_ver "could not read from versions table"
        delete_versions blobs_path file.id file.latest_version (version_table w)
        pure tt

  -- The answer says whether the file was shredded: it never is.
  unfoldable pub delete : DeleteArg → Action Bool
  unfolding fs_record_from_bytes
  delete req = do
    target ← lift (require_target req.target)
    (dir_name, file_name) ← lift (require_name target.path)
    call begin_read "could not read from database"
    call open_fs "could not read from fs table"
    snapshot ← gets (λ s. s.db)
    blobs_path ← gets (λ s. s.blobs_path)
    parent_id ← lift (descend_path dir_name snapshot.fs)
    call begin_write "could not write to database"
    call open_fs "could not write to fs table"
    (fs, removed) ← lift (
        or_refuse (E.tables.remove snapshot.fs (make_key parent_id file_name))
          (internal "could not read from fs table"))
    bytes ← lift (or_refuse removed (invalid_argument "no such file"))
    file ← lift (fs_record_from_bytes bytes)
    lift (
        refuse_if (is_other_version target.version file.latest_version)
          (invalid_argument "not deleting the latest version"))
    delete_record file blobs_path fs snapshot
    pure false
