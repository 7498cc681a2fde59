-- ===== src/Storage/Safety/Using.antt =====
-- The operations on what is there already do not panic
-- (yeetbox-server/src/storage/database.rs).
use yeetbox.Common.{
  ◌≡◌, ℕ, zero, suc, ◌≢◌, refl, Bool, true, false, Option, none, some, List, [], ◌∷◌, Bytes, arith,
}
use yeetbox.Status.{Result, ok, err, panicked}
use yeetbox.Env.{Env, HasClock}
use yeetbox.Records.{FsRecordValue, VersionRecordValue}
use yeetbox.Storage.State.{World, Db, pop}
use yeetbox.Storage.Path.{Text, descend_path, descend_nfkc}
use yeetbox.Storage.Path.Resolve.{walk_calm}
use yeetbox.Storage.Request.{
  AppendArg, DownloadArg, DeleteArg, ListArg, MoveArg, CopyArg, RequestedFileVersion,
}
use yeetbox.Storage.Append.{new_size, append_version, append}
use yeetbox.Storage.Download.{download}
use yeetbox.Storage.Delete.{remove_blob, delete_version, delete_versions, delete_record, delete}
use yeetbox.Storage.Listing.{ListEntry, prepend, list_entry, list_entries, list}
use yeetbox.Storage.Move.{move_record, move}
use yeetbox.Storage.Copy.{copy_blob, copy_record, copy}
use yeetbox.Storage.WellFormed.{IsWellFormed}
use yeetbox.Storage.Safety.{
  IsCalm, lifted_calm, calm_rules, IsCalm-bind, calm_lift, calm_lift_rest, calm_require, calm_gets,
  calm_refuse, calm_call,
}
use yeetbox.Storage.Safety.Overflow.{read_version_blob_calm}
use yeetbox.Storage.Safety.Values.{
  version_value_calm, fs_record_calm, fs_long, removed_long, ver_long, versions_long,
  get_next_id-IsCalm,
}

module _ ⦃E : Env⦄ (clock : HasClock E) where
  new_size-IsCalm : (p : Bytes) (v : VersionRecordValue) (n : ℕ) → IsCalm (new_size p v n)
  unfolding new_size
  new_size-IsCalm p v n = search calm_rules

  append_version_calm :
      (contents : Bytes) (file : FsRecordValue) (base : Bytes) (w : Db) (s : World)
      → IsWellFormed w
      → (append_version contents file base w s).0 ≢ panicked
  unfolding append_version
  append_version_calm contents file base w s wf = calm_call _ _ _ _ (
      calm_require _ _ _ _ λ maybe e1. calm_require _ _ _ _ λ bytes e2.
        calm_lift_rest _ _ _ (version_value_calm bytes (ver_long w _ wf e1 e2))
          λ version e3. search (calm_rules, new_size-IsCalm) depth 20)

  pub append_calm : (req : AppendArg) (s : World) → IsWellFormed s.db → (append req s).0 ≢ panicked
  unfolding append descend_path
  append_calm req s wf = calm_require _ _ req.target _ λ target e1.
      calm_require _ _ (pop target.path) _ λ p e2. calm_call _ _ _ _ (
        calm_call _ _ _ _ (
          calm_gets _ _ _ (
            calm_gets _ _ _ (
              calm_lift _ _ _ (walk_calm _ _ _ _ _) λ parent_id e3. calm_call _ _ _ _ (
                calm_call _ _ _ _ (
                  calm_require _ _ _ _ λ maybe e4. calm_require _ _ _ _ λ bytes e5.
                    calm_lift _ _ _ (fs_record_calm bytes (fs_long s.db _ wf e4 e5)) λ file e6.
                      calm_refuse _ _ _ _ (
                        calm_refuse _ _ _ _
                          (append_version_calm req.contents file _ s.db _ wf))))))))

  pub download_calm :
      (req : DownloadArg) (s : World)
      → E.overflow_checks ≡ false
      → IsWellFormed s.db
      → (download req s).0 ≢ panicked
  unfolding download descend_path
  download_calm req s unchecked wf = calm_require _ _ req.target _ λ target e1.
      calm_require _ _ (pop target.path) _ λ p e2. calm_call _ _ _ _ (
        calm_call _ _ _ _ (
          calm_gets _ _ _ (
            calm_gets _ _ _ (
              calm_lift _ _ _ (walk_calm _ _ _ _ _) λ parent_id e3. calm_require _ _ _ _ λ maybe e4.
                calm_require _ _ _ _ λ file_bytes e5.
                  calm_lift _ _ _ (fs_record_calm file_bytes (fs_long s.db _ wf e4 e5)) λ file e6.
                    calm_refuse _ _ _ _ (
                      calm_call _ _ _ _ (
                        calm_require _ _ _ _ λ versions e7. calm_require _ _ _ _ λ maybe_version e8.
                          calm_require _ _ _ _ λ bytes e9.
                            read_version_blob_calm req _ bytes _ (λ version _. rw unchecked refl)
                              (version_value_calm bytes
                                (versions_long s.db versions _ wf e7 e8 e9))))))))

  remove_blob-IsCalm : (base : Bytes) (d : Option Bytes) → IsCalm (remove_blob base d)
  unfolding remove_blob
  remove_blob-IsCalm base none = search calm_rules
  remove_blob-IsCalm base (some d) = search calm_rules

  delete_version-IsCalm :
      (base : Bytes) (id version : ℕ) (v : E.tables.Table)
      → IsCalm (delete_version base id version v)
  unfolding delete_version
  delete_version-IsCalm base id version v = search (calm_rules, remove_blob-IsCalm) depth 10

  delete_versions-IsCalm :
      (base : Bytes) (id version : ℕ) (v : E.tables.Table)
      → IsCalm (delete_versions base id version v)
  unfolding delete_versions
  delete_versions-IsCalm base id zero v = delete_version-IsCalm base id zero v
  delete_versions-IsCalm base id (suc version) v =
      IsCalm-bind _ _ (delete_version-IsCalm base id (suc version) v)
        λ v'. delete_versions-IsCalm base id version v'

  delete_record-IsCalm :
      (file : FsRecordValue) (base : Bytes) (fs : E.tables.Table) (w : Db)
      → IsCalm (delete_record file base fs w)
  unfolding delete_record
  delete_record-IsCalm file base fs w = search (calm_rules, delete_versions-IsCalm) depth 10

  pub delete_calm : (req : DeleteArg) (s : World) → IsWellFormed s.db → (delete req s).0 ≢ panicked
  unfolding delete descend_path
  delete_calm req s wf = calm_require _ _ req.target _ λ target e1.
      calm_require _ _ (pop target.path) _ λ p e2. calm_call _ _ _ _ (
        calm_call _ _ _ _ (
          calm_gets _ _ _ (
            calm_gets _ _ _ (
              calm_lift _ _ _ (walk_calm _ _ _ _ _) λ parent_id e3. calm_call _ _ _ _ (
                calm_call _ _ _ _ (
                  calm_require _ _ _ _ λ removed e4. calm_require _ _ _ _ λ bytes e5.
                    calm_lift_rest _ _ _ (fs_record_calm bytes (removed_long s.db _ wf e4 e5))
                      λ file e6. search (calm_rules, delete_record-IsCalm) depth 10))))))

  prepend_calm :
      (e : Result ListEntry) (es : Result (List ListEntry))
      → e ≢ panicked
      → es ≢ panicked
      → prepend e es ≢ panicked
  prepend_calm (ok e) (ok es) h k = λ x. cc x
  prepend_calm (ok e) (err x) h k = λ x'. cc x'
  prepend_calm (ok e) panicked h k = absurd (k refl)
  prepend_calm (err x) es h k = λ x'. cc x'
  prepend_calm panicked es h k = absurd (h refl)

  list_entry_calm : (e : Bytes × Bytes) → list_entry e ≢ panicked
  unfolding list_entry
  list_entry_calm (key, value) = ground arith

  list_entries_calm : (clean : Bool) (es : List (Bytes × Bytes)) → list_entries clean es ≢ panicked
  unfolding list_entries
  list_entries_calm true [] = λ h. cc h
  list_entries_calm false [] = λ h. cc h
  list_entries_calm clean (e ∷ es) =
      prepend_calm _ _ (list_entry_calm e) (list_entries_calm clean es)

  pub list_calm : (req : ListArg) (s : World) → (list req s).0 ≢ panicked
  unfolding list descend_nfkc
  list_calm req s = calm_require _ _ req.target _ λ target e1. calm_call _ _ _ _ (
      calm_call _ _ _ _ (
        calm_gets _ _ _ (
          calm_lift _ _ _ (walk_calm _ _ _ _ _) λ parent_id e2.
            calm_require _ _ _ _ λ r e3. lifted_calm _ _ (list_entries_calm r.1 r.0))))

  move_record_calm :
      (src dest : Bytes) (name : Text) (version : Option RequestedFileVersion) (w : Db) (s : World)
      → IsWellFormed w
      → (move_record src dest name version w s).0 ≢ panicked
  unfolding move_record
  move_record_calm src dest name version w s wf = calm_require _ _ _ _ λ removed e1.
      calm_require _ _ _ _ λ bytes e2.
        calm_lift_rest _ _ _ (fs_record_calm bytes (removed_long w _ wf e1 e2))
          λ file e3. search calm_rules depth 20

  pub move_calm : (req : MoveArg) (s : World) → IsWellFormed s.db → (move req s).0 ≢ panicked
  unfolding move descend_path
  move_calm req s wf = calm_require _ _ req.target _ λ target e1.
      calm_require _ _ (pop req.destination) _ λ d e2. calm_require _ _ (pop target.path) _ λ p e3.
        calm_call _ _ _ _ (
          calm_call _ _ _ _ (
            calm_gets _ _ _ (
              calm_lift _ _ _ (walk_calm _ _ _ _ _) λ src_id e4.
                calm_lift _ _ _ (walk_calm _ _ _ _ _)
                  λ dest_id e5. move_record_calm _ _ d.1 target.version s.db _ wf)))

  copy_blob-IsCalm :
      (file : FsRecordValue) (ulid : ℕ) (base : Bytes) → IsCalm (copy_blob file ulid base)
  unfolding copy_blob
  copy_blob-IsCalm file ulid base = search calm_rules

  copy_record-IsCalm :
      (dest : Bytes) (name : Text) (ulid : ℕ) (w : Db) → IsCalm (copy_record dest name ulid w)
  unfolding copy_record
  copy_record-IsCalm dest name ulid w = search (calm_rules, get_next_id-IsCalm) depth 20

  pub copy_calm : (req : CopyArg) (s : World) → IsWellFormed s.db → (copy req s).0 ≢ panicked
  unfolding copy descend_path
  copy_calm req s wf = calm_require _ _ req.target _ λ target e1.
      calm_require _ _ (pop req.destination) _ λ d e2. calm_require _ _ (pop target.path) _ λ p e3.
        calm_call _ _ _ _ (
          calm_call _ _ _ _ (
            calm_gets _ _ _ (
              calm_gets _ _ _ (
                calm_lift _ _ _ (walk_calm _ _ _ _ _) λ src_id e4.
                  calm_lift _ _ _ (walk_calm _ _ _ _ _) λ dest_id e5.
                    calm_require _ _ _ _ λ maybe e6. calm_require _ _ _ _ λ bytes e7.
                      calm_lift_rest _ _ _ (fs_record_calm bytes (fs_long s.db _ wf e6 e7))
                        λ file e8.
                          search (calm_rules, copy_blob-IsCalm, copy_record-IsCalm) depth 10))))
