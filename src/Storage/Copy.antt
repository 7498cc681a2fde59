-- ===== src/Storage/Copy.antt =====
-- `DatabaseStorage::copy` (yeetbox-server/src/storage/database.rs).
pub mod Effect
use yeetbox.Common.{ℕ, Bool, ◌||◌, Bytes, ◌++◌, ◌==◌, if◌then◌else◌}
use yeetbox.Status.{err, invalid_argument, internal, refuse_if, or_refuse, is_some}
use yeetbox.Env.{Env, begin_write, open_fs}
use yeetbox.Time64.{Time64}
use yeetbox.Text.{decimal}
use yeetbox.Records.{
  FsRecordValue, default_record, obj_type_normal_blob, obj_type_version_blob, obj_type_append_blob,
  obj_type_block_blob, obj_type_symlink, bytes_of_record, fs_record_from_bytes,
}
use yeetbox.Storage.State.{
  Db, Action, pure, lift, gets, ◌>>=◌, ◌>>◌, call, commit_db, change_files, now, new_ulid, codes,
  push, pop,
}
use yeetbox.Storage.Path.{Text, make_key, descend_path}
use yeetbox.Storage.Sequence.{get_next_id}
use yeetbox.Storage.Upload.{blob_path_of}
use yeetbox.Storage.Request.{CopyArg, require_target, require_name}

-- The types whose blob is copied.
abbrev pub has_own_blob : ℕ → Bool
has_own_blob t = t == obj_type_normal_blob || t == obj_type_append_blob || t == obj_type_block_blob

-- The types for which a new record is enough.
abbrev pub needs_record_only : ℕ → Bool
needs_record_only t = t == obj_type_symlink || t == obj_type_version_blob

-- The record of the copy: what it does not name has its default.
abbrev pub new_copy : ℕ → ℕ → Time64 → FsRecordValue
new_copy id dest_ulid create_time = record default_record {
  id = id;
  blob_ulid = dest_ulid;
  create_time = create_time;
  modify_time = create_time;
  change_time = create_time;
}

module _ ⦃E : Env⦄ where
  -- The name of the source is made of the u128 of its ULID, in decimal digits; that of the
  -- destination of a ULID.
  unfoldable pub copy_blob : FsRecordValue → ℕ → Bytes → Action (Unit {0})
  unfolding decimal push blob_path_of
  copy_blob file dest_ulid blobs_path =
      if has_own_blob file.type
      then change_files (λ d.
        E.files.copy d (push blobs_path (decimal file.blob_ulid ++ codes ".blob"))
          (blob_path_of blobs_path dest_ulid))
      else if needs_record_only file.type
      then pure tt
      else lift (err (invalid_argument "not allowed to copy an object of this type"))

  -- The write transaction: a new id, and the record under the destination's key.
  unfoldable pub copy_record : Bytes → Text → ℕ → Db → Action (Unit {0})
  copy_record dest_key dest_name dest_ulid w = do
    create_time ← now
    (w', id) ← get_next_id "could not obtain new fs record id" w
    let copied = new_copy id dest_ulid create_time
    (fs, replaced) ← lift (
        or_refuse (E.tables.insert w'.fs dest_key (bytes_of_record copied ++ dest_name))
          (internal "could not write to fs table"))
    lift (refuse_if (is_some replaced) (invalid_argument "destination file already exists"))
    commit_db (record w' { fs = fs }) "could not commit changes"

  unfoldable pub copy : CopyArg → Action (Unit {0})
  unfolding fs_record_from_bytes
  copy req = do
    target ← lift (require_target req.target)
    (dest_dir, dest_name) ←
        lift (or_refuse (pop req.destination) (invalid_argument "destination is required"))
    (dir_name, file_name) ← lift (require_name target.path)
    call begin_write "could not read from database"
    call open_fs "could not read from fs table"
    w ← gets (λ s. s.db)
    blobs_path ← gets (λ s. s.blobs_path)
    src_parent_id ← lift (descend_path dir_name w.fs)
    dest_parent_id ← lift (descend_path dest_dir w.fs)
    maybe_file ← lift (
        or_refuse (E.tables.get w.fs (make_key src_parent_id file_name))
          (internal "could not read from fs table"))
    bytes ← lift (or_refuse maybe_file (invalid_argument "no such file"))
    file ← lift (fs_record_from_bytes bytes)
    dest_ulid ← new_ulid
    copy_blob file dest_ulid blobs_path
    copy_record (make_key dest_parent_id dest_name) dest_name dest_ulid w
