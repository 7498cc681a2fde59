-- ===== src/Storage/Download.antt =====
-- `DatabaseStorage::download` (yeetbox-server/src/storage/database.rs). As in `append`, the arm
-- `OBJ_TYPE_FILE` takes every type of record.
pub mod Effect
use yeetbox.Common.{
  leb, ◌+◌, ◌%◌, ◌^◌, ℕ, ◌*◌, Bool, not, ◌&&◌, Option, none, some, Bytes, length, drop, ◌==◌, ltb,
  min, if◌then◌else◌,
}
use yeetbox.Status.{panic_if, invalid_argument, internal, refuse_if, or_refuse}
use yeetbox.Env.{Env, done, begin_read, open_fs, open_ver}
use yeetbox.Words.{add64, sub64}
use yeetbox.Records.{
  VersionRecordValue, unknown_size, size_of_version, is_readable_obj_type, bytes_of_version_key,
  fs_record_from_bytes, version_value_from_bytes,
}
use yeetbox.Storage.State.{Action, pure, lift, gets, ◌>>=◌, ◌>>◌, call, read_files, push}
use yeetbox.Storage.Path.{make_key, descend_path}
use yeetbox.Storage.Request.{
  DownloadArg, DownloadResult, RequestedFileVersion, require_target, require_name,
}

abbrev pub max_read_size : ℕ
max_read_size = 8 * 1024 * 1024

-- `version.map(|v| v.major).unwrap_or(latest)`
abbrev pub requested_version : Option RequestedFileVersion → ℕ → ℕ
requested_version none latest = latest
requested_version (some v) latest = v.major

abbrev pub known_size : VersionRecordValue → Bool
known_size version = not (version.length == unknown_size)

-- `req.offset > 0 && known_size && req.offset > version_rec.length`
unfoldable pub is_beyond_end : VersionRecordValue → ℕ → Bool
is_beyond_end version offset = ltb 0 offset && known_size version && ltb version.length offset

-- The size of the buffer: the length that was asked for, cut at the end of the version and at
-- `MAX_READ_SIZE`. The sum wraps, as it does in a build without overflow checks; with them it does not
-- come to this if the sum leaves the u64.
unfoldable pub alloc_size : VersionRecordValue → ℕ → ℕ → ℕ
alloc_size version offset asked =
    let req_length =
      if known_size version && ltb version.length (add64 offset asked)
      then sub64 version.length offset
      else asked in
    min req_length max_read_size

-- Whether `req.offset + req.length`, which is computed if the length of the version is known, leaves
-- the u64 that both are.
unfoldable pub sum_overflows : VersionRecordValue → ℕ → ℕ → Bool
sum_overflows version offset asked =
    known_size version && leb (2 ^ 64) (offset % 2 ^ 64 + asked % 2 ^ 64)

module _ ⦃E : Env⦄ where
  unfoldable pub read_version_blob : DownloadArg → Bytes → Bytes → Action DownloadResult
  unfolding version_value_from_bytes push is_beyond_end sum_overflows alloc_size
  read_version_blob req blobs_path bytes = do
    version ← lift (version_value_from_bytes bytes)
    lift (
        refuse_if (is_beyond_end version req.offset) (invalid_argument "offset beyond end of file"))
    let blob_path = push blobs_path (drop size_of_version bytes)
    read_files (λ d. E.files.open_read d blob_path)
    read_files (λ d. if ltb 0 req.offset then E.files.seek d blob_path req.offset else done tt)
    lift (panic_if (E.overflow_checks && sum_overflows version req.offset req.length))
    let wanted = alloc_size version req.offset req.length
    contents ← read_files (λ d. E.files.read d blob_path req.offset wanted)
    pure (record { contents = contents; more = length contents == wanted })

  unfoldable pub download : DownloadArg → Action DownloadResult
  unfolding fs_record_from_bytes is_readable_obj_type
  download req = do
    target ← lift (require_target req.target)
    (dir_name, file_name) ← lift (require_name target.path)
    call begin_read "could not read from database"
    call open_fs "could not read from fs table"
    snapshot ← gets (λ s. s.db)
    blobs_path ← gets (λ s. s.blobs_path)
    parent_id ← lift (descend_path dir_name snapshot.fs)
    maybe_file ← lift (
        or_refuse (E.tables.get snapshot.fs (make_key parent_id file_name))
          (internal "could not read from fs table"))
    file_bytes ← lift (or_refuse maybe_file (invalid_argument "no such file"))
    file ← lift (fs_record_from_bytes file_bytes)
    lift (
        refuse_if (not (is_readable_obj_type file.type)) (invalid_argument "not a readable object"))
    call open_ver "could not read from versions table"
    versions ← lift (or_refuse snapshot.ver (internal "could not read from versions table"))
    maybe_version ← lift (
        or_refuse
          (E.tables.get versions (
            bytes_of_version_key (record {
              file_id = file.id;
              version = requested_version target.version file.latest_version;
            })))
          (internal "failed to read requested version"))
    bytes ← lift (or_refuse maybe_version (internal "database corrupted: missing version"))
    read_version_blob req blobs_path bytes
