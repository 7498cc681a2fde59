-- ===== src/Storage/Download/Effect.antt =====
-- What a successful `download` gives (yeetbox-server/src/storage/database.rs).
use yeetbox.Common.{
  ℕ, ◌+◌, ◌^◌, ◌≤◌, ◌<◌, ◌≡◌, ◌≢◌, refl, sym, ◌∙◌, true, false, none, some, List, Bytes, length,
  take, drop, ◌==◌, arith, not-eq_true, ◌⊎◌, inl, inr, Bool-cases,
}
use yeetbox.Status.{ok}
use yeetbox.Env.{Env, or_empty}
use yeetbox.Records.{
  FsRecordValue, VersionRecordValue, root_fsid, size_of_version, is_readable_obj_type,
  bytes_of_version_key, fs_record_from_bytes, version_value_from_bytes,
}
use yeetbox.Storage.State.{World, push, pop}
use yeetbox.Storage.Path.{Text, make_key, descend_path}
use yeetbox.Storage.Path.Resolve.{Resolves, walk-Resolves}
use yeetbox.Storage.Request.{DownloadArg, DownloadResult, RequestedFileId}
use yeetbox.Storage.Download.{
  max_read_size, requested_version, known_size, is_beyond_end, alloc_size, read_version_blob,
  download,
}
use yeetbox.Storage.Inversion.{
  after_require, after_lift, after_refuse, after_call, after_gets, after_read_files, at_return,
}

-- Where offset plus length and the version's length fit in 64 bits and the offset is not beyond the
-- end, the buffer is no larger than the length asked for and than `MAX_READ_SIZE`, and if the
-- length of the version is known, it ends within the version.
pub alloc_size_bounds :
    (version : VersionRecordValue) (offset asked : ℕ)
    → offset + asked < 2 ^ 64
    → version.length < 2 ^ 64
    → is_beyond_end version offset ≡ false
    → (alloc_size version offset asked ≤ asked)
      × (alloc_size version offset asked ≤ max_read_size)
      × ((known_size version ≡ false) ⊎ (offset + alloc_size version offset asked ≤ version.length))
unfolding alloc_size is_beyond_end
alloc_size_bounds version offset asked fits small within = (
  ground arith,
  ground arith,
  elim (Bool-cases (known_size version)) [
    | inl known ↦ inr (ground arith)
    | inr unknown ↦ inl unknown
  ],
)

module _ ⦃E : Env⦄ where
  pub record Chunk (req : DownloadArg) (base bytes : Bytes) (disk : E.files.Disk)
      (r : DownloadResult) : Type 0 where
    pub version : VersionRecordValue
    pub version_read : version_value_from_bytes bytes ≡ ok version
    pub within : is_beyond_end version req.offset ≡ false
    pub short : length r.contents ≤ alloc_size version req.offset req.length
    pub same_contents :
        r.contents
        ≡ take (length r.contents) (
            drop req.offset
              (or_empty (E.files.content disk (push base (drop size_of_version bytes)))))
    pub there : E.files.content disk (push base (drop size_of_version bytes)) ≢ none
    pub has_more : r.more ≡ (length r.contents == alloc_size version req.offset req.length)

  read_version_blob_effect :
      (req : DownloadArg) (base bytes : Bytes) (s s' : World) (r : DownloadResult)
      → read_version_blob req base bytes s ≡ (ok r, s')
      → Chunk req base bytes s.disk r
  unfolding read_version_blob
  read_version_blob_effect req base bytes s s' r = after_lift _ _ _ λ version e1.
      after_refuse _ _ _ _ λ e2. after_read_files _ _ _ λ u e3. after_read_files _ _ _ λ _ _.
        after_lift _ _ _ λ _ _. after_read_files _ _ _ λ contents e4. at_return _ _ λ e5 e6.
          rw (← e5) (record {
            version = version;
            version_read = e1;
            within = e2;
            short = (E.files.read_part _ _ _ _ e4).0;
            same_contents = (E.files.read_part _ _ _ _ e4).1;
            there = E.files.open_read_there _ _ e3;
            has_more = refl;
          })

  -- The answer is a part of the blob that the record of the asked version names.
  pub record Downloaded (req : DownloadArg) (s : World) (r : DownloadResult) : Type 0 where
    pub target : RequestedFileId
    pub dir : List Text
    pub name : Text
    pub parent_id : ℕ
    pub file_bytes : Bytes
    pub file : FsRecordValue
    pub versions : E.tables.Table
    pub bytes : Bytes
    pub target_given : req.target ≡ some target
    pub path_given : pop target.path ≡ some (dir, name)
    pub parent_found : Resolves make_key s.db.fs root_fsid dir parent_id
    pub was_there : E.tables.find s.db.fs (make_key parent_id name) ≡ some file_bytes
    pub file_read : fs_record_from_bytes file_bytes ≡ ok file
    pub readable : is_readable_obj_type file.type ≡ true
    pub has_versions : s.db.ver ≡ some versions
    pub version_found :
        E.tables.find versions (
          bytes_of_version_key (record {
            file_id = file.id;
            version = requested_version target.version file.latest_version;
          }))
        ≡ some bytes
    pub chunk : Chunk req s.blobs_path bytes s.disk r

  -- If `download` succeeds, the parents led to a folder, the file was stored and is of a readable
  -- type, the asked version was stored, its blob is there, the offset is not beyond its end, and the
  -- answer is a part of that blob from the offset on, no longer than the buffer. `more` says whether
  -- the buffer was filled, and not, as remotefs.proto has it, whether there is more data after the
  -- answer.
  pub download_effect :
      (req : DownloadArg) (s s' : World) (r : DownloadResult)
      → download req s ≡ (ok r, s')
      → Downloaded req s r
  unfolding download descend_path
  download_effect req s s' r = after_require _ _ req.target _ λ target e1.
      after_require _ _ (pop target.path) _ λ p e2. after_call _ _ _ _ (
        after_call _ _ _ _ (
          after_gets _ _ _ (
            after_gets _ _ _ (
              after_lift _ _ _ λ parent_id e3. after_require _ _ _ _ λ maybe_file e4.
                after_require _ _ _ _ λ file_bytes e5. after_lift _ _ _ λ file e6.
                  after_refuse _ _ _ _ λ e7. after_call _ _ _ _ (
                    after_require _ _ _ _ λ versions e8. after_require _ _ _ _ λ maybe_version e9.
                      after_require _ _ _ _ λ bytes e10. λ h. record {
                        target = target;
                        dir = p.0;
                        name = p.1;
                        parent_id = parent_id;
                        file_bytes = file_bytes;
                        file = file;
                        versions = versions;
                        bytes = bytes;
                        target_given = e1;
                        path_given = e2;
                        parent_found = walk-Resolves make_key _ s.db.fs root_fsid p.0 e3;
                        was_there = sym (E.tables.get-find _ _ e4) ∙ e5;
                        file_read = e6;
                        readable = not-eq_true _ e7;
                        has_versions = e8;
                        version_found = sym (E.tables.get-find _ _ e9) ∙ e10;
                        chunk = read_version_blob_effect req _ bytes _ s' r h;
                      })))))
