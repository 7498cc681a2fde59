-- ===== src/Storage/Upload.antt =====
-- `DatabaseStorage::upload` (yeetbox-server/src/storage/database.rs).
pub mod Effect
pub mod Blob
pub mod Disk
pub mod Recorded
pub mod Messages
use yeetbox.Common.{
  ℕ, Bool, true, false, not, ◌&&◌, Option, none, some, List, [], Bytes, ◌++◌, length, ◌==◌,
  if◌then◌else◌,
}
use yeetbox.Status.{
  invalid_argument, internal, Result, ok, err, panicked, refuse_if, or_refuse, is_some,
}
use yeetbox.Env.{Env, begin_read, begin_write, open_fs, open_ver}
use yeetbox.Words.{add64}
use yeetbox.Time64.{Time64, time64_unknown_time}
use yeetbox.Perms.{UnixPermissions, unix_perms_to_u16}
use yeetbox.Text.{trim}
use yeetbox.Records.{
  FsRecordValue, VersionRecordValue, default_record, default_storage_tier, obj_type_version_blob,
  unknown_size, bytes_of_record, bytes_of_version, bytes_of_version_key, fs_record_from_bytes,
}
use yeetbox.Storage.State.{
  Db, Action, pure, lift, gets, ◌>>=◌, ◌>>◌, call, commit_db, change_files, write_files, now,
  new_ulid, codes, push,
}
use yeetbox.Storage.Path.{Text, make_key, descend_raw}
use yeetbox.Storage.Sequence.{get_next_id, version_table}
use yeetbox.Storage.Request.{UploadArg, require_target, require_name}

abbrev pub time_or : Option Time64 → Time64 → Time64
time_or none current = current
time_or (some t) current = t

abbrev pub next_version : Option ℕ → ℕ
next_version none = 1
next_version (some v) = add64 v 1

abbrev pub field_of : {A : Type 0} → (FsRecordValue → A) → Option FsRecordValue → Option A
field_of f none = none
field_of f (some r) = some (f r)

abbrev pub flags_of : Option UnixPermissions → ℕ
flags_of none = 0o755
flags_of (some p) = unix_perms_to_u16 p

abbrev pub found : Result FsRecordValue → Result (Option FsRecordValue)
found (ok r) = ok (some r)
found (err e) = err e
found panicked = panicked

-- `!req.incomplete && req.continuation.len() == 0`
abbrev pub is_single_message : UploadArg → Bool
is_single_message req = not req.incomplete && length req.continuation == 0

module _ ⦃E : Env⦄ where
  -- `format!("{}.blob", ulid)` under the folder of the blobs.
  unfoldable pub blob_path_of : Bytes → ℕ → Bytes
  unfolding push
  blob_path_of blobs_path ulid = push blobs_path (E.ulid_text ulid ++ codes ".blob")

  -- The name of the blob: new, or the continuation token.
  unfoldable pub choose_ulid : Bytes → Action ℕ
  choose_ulid continuation =
      if length continuation == 0
      then new_ulid
      else if length continuation == 16
      then pure (E.ulid_from_bytes continuation)
      else lift (err (invalid_argument "invalid continuation token"))

  unfoldable pub write_blob : Bytes → Bytes → Action (Unit {0})
  write_blob blob_path contents = do
    change_files (λ d. E.files.open_append true d blob_path)
    write_files (λ d. E.files.write d blob_path contents)
    pure tt

  -- The record that is already under the key, if a new version of it was asked for.
  unfoldable pub previous_record : Bool → Option Bytes → Result (Option FsRecordValue)
  unfolding fs_record_from_bytes
  previous_record next none = ok none
  previous_record next (some bytes) =
      if next
      then found (fs_record_from_bytes bytes)
      else err (invalid_argument "object already exists with that name")

  -- `existing_file_id`, or a new id.
  unfoldable pub file_id_for : Option FsRecordValue → Db → Action (Db × ℕ)
  file_id_for none w = get_next_id "could not read and/or increment sequence for FS table" w
  file_id_for (some r) w = pure (w, r.id)

  unfoldable pub new_file_record : Option FsRecordValue → ℕ → ℕ → Action FsRecordValue
  new_file_record previous file_id ulid = do
    created ← now
    modified ← now
    accessed ← now
    pure (record default_record {
      id = file_id;
      type = obj_type_version_blob;
      create_time = time_or (field_of (λ r. r.create_time) previous) created;
      modify_time = modified;
      access_time = time_or (field_of (λ r. r.access_time) previous) accessed;
      change_time = time64_unknown_time;
      delete_time = time64_unknown_time;
      latest_version = next_version (field_of (λ r. r.latest_version) previous);
      blob_ulid = ulid;
    })

  unfoldable pub new_file_version : UploadArg → Action VersionRecordValue
  new_file_version req = do
    created ← now
    pure (record {
      create_time = created;
      access_time = time64_unknown_time;
      uid = req.uid;
      gid = req.gid;
      flags = flags_of req.perms;
      storage_tier = default_storage_tier;
      length = if is_single_message req then length req.contents else unknown_size;
      other = 0;
    })

  -- A blob that came in fragments is renamed, so that its token cannot be used again.
  unfoldable pub save_blob : Bool → Bytes → Bytes → Action Bytes
  save_blob true blobs_path blob_path = pure blob_path
  save_blob false blobs_path blob_path = do
    new_ulid_ ← new_ulid
    let new_blob_path = blob_path_of blobs_path new_ulid_
    change_files (λ d. E.files.rename d blob_path new_blob_path)
    pure new_blob_path

  -- The write transaction: the record under its key, and its version under the key of that.
  unfoldable pub record_upload : UploadArg → ℕ → Bytes → Bytes → ℕ → Text → Db → Action (Unit {0})
  record_upload req ulid blobs_path blob_path parent_id file_name w = do
    call begin_write "could not write to database"
    call open_fs "could not read from fs table"
    let key = make_key parent_id file_name
    existing ← lift (
        or_refuse (E.tables.get w.fs key) (internal "error trying to check if file exists already"))
    previous ← lift (previous_record req.next existing)
    (w', file_id) ← file_id_for previous w
    file ← new_file_record previous file_id ulid
    (fs, replaced) ← lift (
        or_refuse (E.tables.insert w'.fs key (bytes_of_record file ++ file_name))
          (internal "could not write to fs table"))
    lift (refuse_if (is_some replaced) (internal "replaced existing folder"))
    version ← new_file_version req
    saved ← save_blob (is_single_message req) blobs_path blob_path
    call open_ver "could not read from versions table"
    (ver, _) ← lift (
        or_refuse
          (E.tables.insert (version_table w')
            (bytes_of_version_key (record { file_id = file_id; version = file.latest_version }))
            (bytes_of_version version ++ saved))
          (internal "could not write to fs table"))
    commit_db (record w' { fs = fs; ver = some ver }) "could not commit changes"

  -- What follows when the last fragment is in; the answer holds no token then.
  unfoldable pub finish_upload : UploadArg → ℕ → Bytes → Bytes → List Text → Text → Action Bytes
  finish_upload req ulid blobs_path blob_path parents last_name = do
    call begin_read "could not read from database"
    call open_fs "could not read from fs table"
    snapshot ← gets (λ s. s.db)
    parent_id ← lift (descend_raw parents snapshot.fs)
    record_upload req ulid blobs_path blob_path parent_id (trim last_name) snapshot
    pure []

  unfoldable pub upload : UploadArg → Action Bytes
  upload req = do
    target ← lift (require_target req.target)
    (parents, last_name) ← lift (require_name target.path)
    ulid ← choose_ulid req.continuation
    blobs_path ← gets (λ s. s.blobs_path)
    let blob_path = blob_path_of blobs_path ulid
    write_blob blob_path req.contents
    if req.incomplete
        then pure (E.ulid_to_bytes ulid)
        else finish_upload req ulid blobs_path blob_path parents last_name
