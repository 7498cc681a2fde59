-- ===== src/Storage/Append.antt =====
-- `DatabaseStorage::append` (yeetbox-server/src/storage/database.rs). The `match` on the type of the
-- record has the first arm `OBJ_TYPE_FILE`, which names no constant and so takes every type.
pub mod Effect
use yeetbox.Common.{
  ℕ, Bool, false, not, Option, none, some, Bytes, length, drop, ◌==◌, if◌then◌else◌,
}
use yeetbox.Status.{invalid_argument, internal, refuse_if, or_refuse}
use yeetbox.Env.{Env, begin_read, begin_write, open_fs, open_ver}
use yeetbox.Words.{add64}
use yeetbox.Records.{
  FsRecordValue, VersionRecordValue, unknown_size, size_of_version, is_readable_obj_type,
  bytes_of_version, bytes_of_version_key, fs_record_from_bytes, version_value_from_bytes,
}
use yeetbox.Storage.State.{
  Db, Action, pure, lift, gets, ◌>>=◌, ◌>>◌, call, change_files, write_files, read_files, now, push,
}
use yeetbox.Storage.Path.{make_key, descend_path}
use yeetbox.Storage.Sequence.{version_table}
use yeetbox.Storage.Request.{AppendArg, RequestedFileVersion, require_target, require_name}

-- `version.is_some_and(|v| v.major != latest)`
abbrev pub is_other_version : Option RequestedFileVersion → ℕ → Bool
is_other_version none latest = false
is_other_version (some v) latest = not (v.major == latest)

module _ ⦃E : Env⦄ where
  unfoldable pub new_size : Bytes → VersionRecordValue → ℕ → Action ℕ
  new_size blob_path version added =
      if version.length == unknown_size
      then read_files (λ d. E.files.size d blob_path)
      else pure (add64 version.length added)

  -- The data goes to the end of the blob, and a record of the next version into the transaction,
  -- which is not committed.
  unfoldable pub append_version : Bytes → FsRecordValue → Bytes → Db → Action (Unit {0})
  unfolding version_value_from_bytes push
  append_version contents file blobs_path w = do
    call open_ver "could not read from versions table"
    maybe_version ← lift (
        or_refuse
          (E.tables.get (version_table w)
            (bytes_of_version_key (record { file_id = file.id; version = file.latest_version })))
          (internal "failed to read requested version"))
    bytes ← lift (or_refuse maybe_version (internal "database corrupted: missing version"))
    version ← lift (version_value_from_bytes bytes)
    let blob_path = push blobs_path (drop size_of_version bytes)
    change_files (λ d. E.files.open_append false d blob_path)
    write_files (λ d. E.files.write d blob_path contents)
    size ← new_size blob_path version (length contents)
    created ← now
    lift (
        or_refuse
          (E.tables.insert (version_table w)
            (bytes_of_version_key
              (record { file_id = file.id; version = add64 file.latest_version 1 }))
            (bytes_of_version (record version { create_time = created; length = size })))
          (internal "could not write to fs table"))
    pure tt

  unfoldable pub append : AppendArg → Action (Unit {0})
  unfolding fs_record_from_bytes is_readable_obj_type
  append req = do
    target ← lift (require_target req.target)
    (dir_name, file_name) ← lift (require_name target.path)
    call begin_read "could not read from database"
    call open_fs "could not read from fs table"
    snapshot ← gets (λ s. s.db)
    blobs_path ← gets (λ s. s.blobs_path)
    parent_id ← lift (descend_path dir_name snapshot.fs)
    call begin_write "could not write to database"
    call open_fs "could not write to fs table"
    maybe_file ← lift (
        or_refuse (E.tables.get snapshot.fs (make_key parent_id file_name))
          (internal "could not read from fs table"))
    bytes ← lift (or_refuse maybe_file (invalid_argument "no such file"))
    file ← lift (fs_record_from_bytes bytes)
    lift (
        refuse_if (not (is_readable_obj_type file.type)) (invalid_argument "not a readable object"))
    lift (
        refuse_if (is_other_version target.version file.latest_version)
          (invalid_argument "not appending to latest version"))
    append_version req.contents file blobs_path snapshot
