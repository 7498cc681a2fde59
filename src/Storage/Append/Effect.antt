-- ===== src/Storage/Append/Effect.antt =====
-- What a successful `append` has done (yeetbox-server/src/storage/database.rs).
use yeetbox.Common.{ℕ, ◌≡◌, sym, ◌∙◌, true, false, some, List, Bytes, drop, not-eq_true}
use yeetbox.Status.{ok}
use yeetbox.Env.{Env}
use yeetbox.Records.{
  FsRecordValue, VersionRecordValue, root_fsid, size_of_version, is_readable_obj_type,
  bytes_of_version_key, fs_record_from_bytes, version_value_from_bytes,
}
use yeetbox.Storage.State.{World, Db, push, pop}
use yeetbox.Storage.Path.{Text, make_key, descend_path}
use yeetbox.Storage.Path.Resolve.{Resolves, walk-Resolves}
use yeetbox.Storage.Sequence.{version_table}
use yeetbox.Storage.Append.{is_other_version, new_size, append_version, append}
use yeetbox.Storage.Request.{AppendArg, RequestedFileId}
use yeetbox.Storage.Upload.Blob.{Written, opened-Written}
use yeetbox.Storage.Upload.Disk.{KeepsDisk, KeepsDisk-disk, disk_rules}
use yeetbox.Storage.Keeps.{Leaves-db, Leaves-path}
use yeetbox.Storage.Atomicity.{append-Leaves}
use yeetbox.Storage.Inversion.{
  after_bind, after_require, after_lift, after_refuse, after_call, after_gets, after_now,
  after_change_files, after_write_files, at_return,
}

module _ ⦃E : Env⦄ where
  -- The latest version is stored, and the end of the blob that it names has what was taken of the
  -- data.
  pub record Extended (file : FsRecordValue) (base contents : Bytes) (w : Db) (d d' : E.files.Disk)
      : Type 0 where
    pub bytes : Bytes
    pub version : VersionRecordValue
    pub version_found :
        E.tables.find
          (version_table w)
          (bytes_of_version_key (record { file_id = file.id; version = file.latest_version }))
        ≡ some bytes
    pub version_read : version_value_from_bytes bytes ≡ ok version
    pub written : Written (push base (drop size_of_version bytes)) contents d d'

  new_size-KeepsDisk :
      (p : Bytes) (version : VersionRecordValue) (added : ℕ) → KeepsDisk (new_size p version added)
  unfolding new_size
  new_size-KeepsDisk p version added = search disk_rules

  append_version_effect :
      (contents : Bytes) (file : FsRecordValue) (base : Bytes) (w : Db) (s s' : World)
      → append_version contents file base w s ≡ (ok tt, s')
      → Extended file base contents w s.disk s'.disk
  unfolding append_version
  append_version_effect contents file base w s s' = after_call _ _ _ _ (
      after_require _ _ _ _ λ found e1. after_require _ _ _ _ λ bytes e2.
        after_lift _ _ _ λ version e3. after_change_files _ _ _ λ d e4.
          after_write_files _ _ _ λ d' n e5. after_bind _ _ _ λ size t e6.
            after_now _ _ λ created e9. after_require _ _ _ _ λ inserted e7. at_return _ _ λ _ e8.
              let same = KeepsDisk-disk (new_size-KeepsDisk _ version _) e6 in
              rw (← e8, same)
                (record {
                  bytes = bytes;
                  version = version;
                  version_found = sym (E.tables.get-find _ _ e1) ∙ e2;
                  version_read = e3;
                  written = opened-Written false _ contents s.disk e4 e5;
                }))

  pub record Appended (req : AppendArg) (s s' : World) : Type 0 where
    pub target : RequestedFileId
    pub dir : List Text
    pub name : Text
    pub parent_id : ℕ
    pub bytes : Bytes
    pub file : FsRecordValue
    pub target_given : req.target ≡ some target
    pub path_given : pop target.path ≡ some (dir, name)
    pub parent_found : Resolves make_key s.db.fs root_fsid dir parent_id
    pub was_there : E.tables.find s.db.fs (make_key parent_id name) ≡ some bytes
    pub file_read : fs_record_from_bytes bytes ≡ ok file
    pub readable : is_readable_obj_type file.type ≡ true
    pub is_latest : is_other_version target.version file.latest_version ≡ false
    pub extended : Extended file s.blobs_path req.contents s.db s.disk s'.disk
    pub same_db : s'.db ≡ s.db
    pub same_base : s'.blobs_path ≡ s.blobs_path

  -- If `append` succeeds, the file was stored, is of a readable type and had the asked version as
  -- its latest; a part of the data has gone to the end of the blob that the stored record of this
  -- version names; and the database is as before: the new version is not in it.
  pub append_effect :
      (req : AppendArg) (s s' : World) → append req s ≡ (ok tt, s') → Appended req s s'
  unfolding append descend_path
  append_effect req s s' h =
      let same_db = Leaves-db (append-Leaves req) h in
      let same_base = Leaves-path (append-Leaves req) h in
      after_require _ _ req.target _
        (λ target e1. after_require _ _ (pop target.path) _ λ p e2. after_call _ _ _ _ (
          after_call _ _ _ _ (
            after_gets _ _ _ (
              after_gets _ _ _ (
                after_lift _ _ _ λ parent_id e3. after_call _ _ _ _ (
                  after_call _ _ _ _ (
                    after_require _ _ _ _ λ found e4. after_require _ _ _ _ λ bytes e5.
                      after_lift _ _ _ λ file e6. after_refuse _ _ _ _ λ e7.
                        after_refuse _ _ _ _ λ e8. λ h'. record {
                          target = target;
                          dir = p.0;
                          name = p.1;
                          parent_id = parent_id;
                          bytes = bytes;
                          file = file;
                          target_given = e1;
                          path_given = e2;
                          parent_found = walk-Resolves make_key _ s.db.fs root_fsid p.0 e3;
                          was_there = sym (E.tables.get-find _ _ e4) ∙ e5;
                          file_read = e6;
                          readable = not-eq_true _ e7;
                          is_latest = e8;
                          extended = append_version_effect req.contents file _ _ _ s' h';
                          same_db = same_db;
                          same_base = same_base;
                        })))))))
        h
