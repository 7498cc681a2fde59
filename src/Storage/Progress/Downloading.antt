-- ===== src/Storage/Progress/Downloading.antt =====
-- Downloads succeed where no call of the environment fails, and so does one after an upload
-- (yeetbox-server/src/storage/database.rs).
use yeetbox.Common.{
  ◌&&◌, ℕ, ◌≡◌, ◌≢◌, refl, sym, ap, ◌∙◌, Bool, true, false, not, Option, none, some, List, Bytes,
  bytes_eq_refl, ◌++◌, drop, arith,
}
use yeetbox.Status.{ok}
use yeetbox.Env.{Env, done}
use yeetbox.Text.{trim}
use yeetbox.Records.{
  FsRecordValue, VersionRecordValue, root_fsid, size_of_version, is_readable_obj_type,
  bytes_of_record, bytes_of_version_key, read_record, fs_record_from_bytes,
  version_value_from_bytes,
}
use yeetbox.Records.Codec.{
  read_record_id, read_record_type, stored_record, stored_version, path_of_version,
}
use yeetbox.Storage.State.{World, Db, push, is_absolute, pop}
use yeetbox.Storage.Path.{Text, make_key, descend_path}
use yeetbox.Storage.Path.Resolve.{Resolves, get-eq-find, Resolves-walk}
use yeetbox.Storage.Request.{FileId, FileVersion, RequestedFileId, UploadArg, DownloadArg}
use yeetbox.Storage.Download.{
  requested_version, is_beyond_end, sum_overflows, alloc_size, read_version_blob, download,
}
use yeetbox.Storage.Upload.{upload}
use yeetbox.Storage.Upload.Recorded.{Recorded}
use yeetbox.Storage.Upload.Effect.{upload_effect}
use yeetbox.Storage.RoundTrip.{IsNormal, Resolves-kept, Saved-push}
use yeetbox.Storage.Progress.{
  IsReliable, Succeeds, go_require, go_lift, go_gets, go_call, go_refuse, go_read, go_pure,
}

-- Files that are there can be read.
pub record IsOpen (E : Env) : Type 0 where
  pub opens :
      (d : E.files.Disk) (p : Bytes) → E.files.content d p ≢ none → E.files.open_read d p ≡ done tt
  pub reads :
      (d : E.files.Disk) (p : Bytes) (offset n : ℕ)
      → E.files.content d p ≢ none
      → (bs : Bytes) × (E.files.read d p offset n ≡ done bs)

module _ ⦃E : Env⦄ (reliable : IsReliable E) (open_ : IsOpen E) where
  read_version_blob-Succeeds :
      (req : DownloadArg) (base bytes : Bytes) (version : VersionRecordValue) (s : World)
      → version_value_from_bytes bytes ≡ ok version
      → req.offset ≡ 0
      → is_beyond_end version req.offset ≡ false
      → (E.overflow_checks && sum_overflows version req.offset req.length) ≡ false
      → E.files.content s.disk (push base (drop size_of_version bytes)) ≢ none
      → Succeeds (read_version_blob req base bytes) s
  unfolding read_version_blob
  read_version_blob-Succeeds req base bytes version s read start within fits there =
      let wanted = alloc_size version req.offset req.length in
      let (contents, got) = open_.reads s.disk _ req.offset wanted there in
      go_lift _ _ _ version read (
        go_refuse _ _ _ _ within (
          go_read _ _ _ tt (open_.opens _ _ there) (
            go_read _ _ _ tt (rw start refl)
              (go_lift _ _ _ tt (rw fits refl) (go_read _ _ _ contents got (go_pure _ _))))))

  download-Succeeds :
      (req : DownloadArg) (s : World) (target : RequestedFileId) (dir : List Text) (name : Text)
      (parent_id : ℕ) (file_bytes : Bytes) (file : FsRecordValue) (versions : E.tables.Table)
      (bytes : Bytes) (version : VersionRecordValue)
      → req.target ≡ some target
      → pop target.path ≡ some (dir, name)
      → Resolves make_key s.db.fs root_fsid dir parent_id
      → E.tables.find s.db.fs (make_key parent_id name) ≡ some file_bytes
      → fs_record_from_bytes file_bytes ≡ ok file
      → is_readable_obj_type file.type ≡ true
      → s.db.ver ≡ some versions
      → E.tables.find versions (
          bytes_of_version_key (record {
            file_id = file.id;
            version = requested_version target.version file.latest_version;
          }))
        ≡ some bytes
      → version_value_from_bytes bytes ≡ ok version
      → req.offset ≡ 0
      → is_beyond_end version req.offset ≡ false
      → (E.overflow_checks && sum_overflows version req.offset req.length) ≡ false
      → E.files.content s.disk (push s.blobs_path (drop size_of_version bytes)) ≢ none
      → Succeeds (download req) s
  unfolding download descend_path
  download-Succeeds req s target dir name parent_id file_bytes file versions bytes version e1 e2
        found there read readable has_versions version_found version_read start within fits blob =
      go_require _ _ req.target _ target e1 (
        go_require _ _ (pop target.path) _ (dir, name) e2
          (go_call _ _ reliable _ _ (
            go_call _ _ reliable _ _ (
              go_gets _ _ _ (
                go_gets _ _ _ (
                  go_lift _ _ _ parent_id (Resolves-walk make_key _ s.db.fs reliable.readable found)
                    (go_require _ _ _ _ (some file_bytes)
                      (get-eq-find reliable.readable s.db.fs _ ∙ ap some there)
                      (go_lift _ _ _ file_bytes refl (
                        go_lift _ _ _ file read (
                          go_refuse _ _ _ _ (ap not readable) (
                            go_call _ _ reliable _ _ (
                              go_require _ _ _ _ versions has_versions (
                                go_require _ _ _ _ (some bytes)
                                  (get-eq-find reliable.readable versions _ ∙ ap some version_found)
                                  (go_lift _ _ _ bytes refl (
                                    read_version_blob-Succeeds req _ bytes version _ version_read
                                      start within fits blob)))))))))))))))

  from_start : (version : VersionRecordValue) → is_beyond_end version 0 ≡ false
  unfolding is_beyond_end
  from_start version = refl

  no_overflow :
      (c : Bool) (version : VersionRecordValue) (asked : ℕ)
      → (c && sum_overflows version 0 asked) ≡ false
  unfolding sum_overflows
  no_overflow c version asked = ground arith

  -- The record of a new file is read back in the fields that matter.
  read_new :
      {single : Bool} {base p key : Bytes} {name : Text} {ulid tick : ℕ} {w w' : Db}
      {d d' : E.files.Disk} (a : Recorded single base p key name ulid w w' tick d d')
      → (is_readable_obj_type (read_record (bytes_of_record a.file ++ name)).type ≡ true)
        × (bytes_of_version_key (record {
          file_id = (read_record (bytes_of_record a.file ++ name)).id;
          version = (read_record (bytes_of_record a.file ++ name)).latest_version;
        })
            ≡ bytes_of_version_key (record { file_id = a.file.id; version = 1 }))
  unfolding is_readable_obj_type
  read_new {name} a =
      let (ids, versions) =
        read_record_id a.file name (omega (arith, a.is_new.has_id))
          (omega (arith, a.is_new.has_version)) in
      let type = read_record_type a.file name (omega (arith, a.is_new.has_type)) in
      (rw (type, a.is_new.has_type) refl, rw (ids, versions, a.is_new.has_version) refl)

  -- After a whole upload, in one message or as the last of several, with parents whose names are in
  -- normal form and an absolute path of the blobs, a download of the latest version from its
  -- beginning succeeds, where no call of the database fails and files that are there can be read.
  pub download-Succeeds_uploaded :
      (last : UploadArg) (down : DownloadArg) (last_path down_path dir : List Text) (name : Text)
      (version : Option FileVersion) (s t : World) (token : Bytes)
      → last.incomplete ≡ false
      → last.target ≡ some (record { path = last_path; version = version })
      → down.target ≡ some (record { path = down_path; version = none })
      → down.offset ≡ 0
      → pop last_path ≡ some (dir, name)
      → pop down_path ≡ some (dir, trim name)
      → IsNormal dir
      → is_absolute s.blobs_path ≡ true
      → upload last s ≡ (ok token, t)
      → Succeeds (download down) t
  download-Succeeds_uploaded last down last_path down_path dir name version s t token e1 e2 e3 e4 e5
        e6 normal absolute uploaded =
      let a = upload_effect last s t token e1 uploaded in
      let r = a.recorded in
      let a_target : a.target ≡ record { path = last_path; version = version } =
        cc (a.target_given, e2) in
      let a_path : some (a.parents, a.name) ≡ some (dir, name) =
        sym a.path_given ∙ ap (λ (x : FileId). pop x.path) a_target ∙ e5 in
      let a_dir : a.parents ≡ dir = cc a_path in
      let a_name : a.name ≡ name = cc a_path in
      let found =
        Resolves-kept s.db.fs t.db.fs _ _ r.was_free r.stored dir normal
          (rw a_dir at a.parent_found) in
      let there =
        rw (bytes_eq_refl (make_key a.parent_id (trim a.name))) at
          (r.stored (make_key a.parent_id (trim a.name))) in
      let version_key = bytes_of_version_key (record { file_id = r.file.id; version = 1 }) in
      let version_there = rw (bytes_eq_refl version_key) at (r.version_stored version_key) in
      let (readable, same_key) = read_new r in
      let pushed = Saved-push _ s.blobs_path a.ulid _ _ _ _ absolute r.blob_saved in
      let blob = r.blob_saved.kept ∙ a.written.appended in
      download-Succeeds down t (record { path = down_path; version = none }) dir (trim name)
        a.parent_id _ _ r.versions _ _ e3 e6 found (rw (a_name) at there)
        (stored_record r.file (trim name)) (rw a_name at readable) r.has_versions
        (ap (E.tables.find r.versions) (rw a_name at same_key) ∙ version_there)
        (stored_version r.version r.blob_path) e4 (rw e4 (from_start _))
        (rw e4 (no_overflow E.overflow_checks _ down.length))
        (λ gone.
          cc (gone, rw (← pushed, ← a.same_base, ← path_of_version r.version r.blob_path) at blob))
