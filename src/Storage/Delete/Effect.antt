-- ===== src/Storage/Delete/Effect.antt =====
-- What a successful `delete` has done (yeetbox-server/src/storage/database.rs).
use yeetbox.Common.{
  ℕ, ◌≡◌, refl, sym, ap, ◌∙◌, Bool, false, not, Option, none, some, List, Bytes, bytes_eq, ◌==◌,
  ◌&&◌, Bool-cases, inl, inr, if◌then◌else◌,
}
use yeetbox.Status.{ok}
use yeetbox.Env.{Env}
use yeetbox.Records.{FsRecordValue, root_fsid, obj_type_version_blob, fs_record_from_bytes}
use yeetbox.Storage.State.{World, Db, pop}
use yeetbox.Storage.Path.{Text, make_key, descend_path}
use yeetbox.Storage.Path.Resolve.{Resolves, walk-Resolves}
use yeetbox.Storage.Append.{is_other_version}
use yeetbox.Storage.Request.{DeleteArg, RequestedFileId}
use yeetbox.Storage.Delete.{delete_record, delete}
use yeetbox.Storage.Sequence.{version_table}
use yeetbox.Storage.Delete.Blobs.{is_blob_up_to, delete_versions_blobs}
use yeetbox.Storage.Keeps.{Leaves-db, Leaves-path}
use yeetbox.Storage.Atomicity.{delete_versions-Leaves}
use yeetbox.Storage.Inversion.{
  after_bind, after_require, after_lift, after_refuse, after_call, after_gets, after_commit,
  at_return, after_unless, after_when,
}

module _ ⦃E : Env⦄ where
  -- The entries after the removal of a record: without its key, but as before if it is a blob with
  -- versions. The files of the latter are gone, and no others.
  pub record Removed (file : FsRecordValue) (base key : Bytes) (w w' : Db) (d d' : E.files.Disk)
      : Type 0 where
    pub fs_after :
        (j : Bytes)
        → E.tables.find w'.fs j ≡ (
            if not (file.type == obj_type_version_blob) && bytes_eq key j
            then none
            else E.tables.find w.fs j)
    pub same_seq : w'.seq ≡ w.seq
    pub same_ver : w'.ver ≡ w.ver
    pub blobs_after :
        (q : Bytes)
        → E.files.content d' q ≡ (
            if (file.type == obj_type_version_blob)
              && is_blob_up_to base (version_table w) file.id file.latest_version q
            then none
            else E.files.content d q)

  delete_record_effect :
      (file : FsRecordValue) (base key : Bytes) (fs : E.tables.Table) (removed : Option Bytes)
      (s s' : World)
      → E.tables.remove s.db.fs key ≡ some (fs, removed)
      → delete_record file base fs s.db s ≡ (ok tt, s')
      → Removed file base key s.db s'.db s.disk s'.disk × (s'.blobs_path ≡ s.blobs_path)
  unfolding delete_record
  delete_record_effect file base key fs removed s s' e h =
      elim (Bool-cases (file.type == obj_type_version_blob)) [
        | inl versioned ↦
            after_unless _ _ _ _ (ap not versioned)
              (after_call _ _ _ _ (
                after_bind _ _ _ λ v t e1. at_return _ _ λ _ e2.
                  let same : s'.db ≡ s.db =
                    ap (λ (u : World). u.db) (sym e2)
                    ∙ Leaves-db (delete_versions-Leaves _ _ _ _) e1 in
                  let same_base : s'.blobs_path ≡ s.blobs_path =
                    ap (λ (u : World). u.blobs_path) (sym e2)
                    ∙ Leaves-path (delete_versions-Leaves _ _ _ _) e1 in
                  (
                    record {
                      fs_after = λ j. rw (versioned, same) refl;
                      same_seq = ap (λ (w : Db). w.seq) same;
                      same_ver = ap (λ (w : Db). w.ver) same;
                      blobs_after = λ q.
                          rw (versioned, ← e2)
                            (delete_versions_blobs base file.id file.latest_version _ v _ t e1 q);
                    },
                    same_base,
                  )))
              h
        | inr other ↦
            after_when _ _ _ _ (ap not other)
              (after_commit _ _ _ λ e1. (
                record {
                  fs_after = λ j. rw (other, e1) (E.tables.find-remove _ _ e j);
                  same_seq = ap (λ (t : World). t.db.seq) e1;
                  same_ver = ap (λ (t : World). t.db.ver) e1;
                  blobs_after = λ q. rw (other, e1) refl;
                },
                ap (λ (t : World). t.blobs_path) e1,
              ))
              h
      ]

  -- The entry was there; what has become of it is in `removed`.
  pub record Deleted (req : DeleteArg) (s s' : World) : Type 0 where
    pub target : RequestedFileId
    pub dir : List Text
    pub name : Text
    pub parent_id : ℕ
    pub bytes : Bytes
    pub file : FsRecordValue
    pub target_given : req.target ≡ some target
    pub path_given : pop target.path ≡ some (dir, name)
    pub parent_found : Resolves make_key s.db.fs root_fsid dir parent_id
    pub was_there : E.tables.find s.db.fs (make_key parent_id name) ≡ some bytes
    pub file_read : fs_record_from_bytes bytes ≡ ok file
    pub is_latest : is_other_version target.version file.latest_version ≡ false
    pub removed : Removed file s.blobs_path (make_key parent_id name) s.db s'.db s.disk s'.disk
    pub same_base : s'.blobs_path ≡ s.blobs_path

  -- If `delete` succeeds, the object was stored and had the asked version as its latest; its entry
  -- is gone if it is not a versioned blob, and if it is one, every entry is as before, while the
  -- files that the stored records of its versions from 0 up to the latest name are gone. All other
  -- files are as before. The sequence and the versions have not changed in either case.
  pub delete_effect :
      (req : DeleteArg) (s s' : World) (shredded : Bool)
      → delete req s ≡ (ok shredded, s')
      → Deleted req s s'
  unfolding delete descend_path
  delete_effect req s s' shredded = after_require _ _ req.target _ λ target e1.
      after_require _ _ (pop target.path) _ λ p e2. after_call _ _ _ _ (
        after_call _ _ _ _ (
          after_gets _ _ _ (
            after_gets _ _ _ (
              after_lift _ _ _ λ parent_id e3. after_call _ _ _ _ (
                after_call _ _ _ _ (
                  after_require _ _ _ _ λ removed e4. after_require _ _ _ _ λ bytes e5.
                    after_lift _ _ _ λ file e6. after_refuse _ _ _ _ λ e7.
                      after_bind _ _ _ λ u t e8. at_return _ _ λ _ e9. rw (← e9) (record {
                        target = target;
                        dir = p.0;
                        name = p.1;
                        parent_id = parent_id;
                        bytes = bytes;
                        file = file;
                        target_given = e1;
                        path_given = e2;
                        parent_found = walk-Resolves make_key _ s.db.fs root_fsid p.0 e3;
                        was_there = sym (E.tables.remove_old _ _ e4) ∙ e5;
                        file_read = e6;
                        is_latest = e7;
                        removed = (delete_record_effect file _ _ _ _ _ t e4 e8).0;
                        same_base = (delete_record_effect file _ _ _ _ _ t e4 e8).1;
                      })))))))
