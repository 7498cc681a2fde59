-- ===== src/Storage/Safety/Making.antt =====
-- The operations that make directories and files do not panic
-- (yeetbox-server/src/storage/database.rs).
use yeetbox.Common.{
  ℕ, ◌≡◌, ◌≢◌, refl, sym, subst, ◌∙◌, Bool, true, false, Option, none, some, List, Bytes,
}
use yeetbox.Status.{Result, ok, err, panicked}
use yeetbox.Env.{Env, HasClock}
use yeetbox.Records.{FsRecordValue, fs_record_from_bytes}
use yeetbox.Storage.State.{World, Db, pop}
use yeetbox.Storage.Path.{Text, descend_raw}
use yeetbox.Storage.Path.Resolve.{walk_calm}
use yeetbox.Storage.Request.{MakeDirectoryArg, UploadArg}
use yeetbox.Storage.MakeDirectory.{make_directory}
use yeetbox.Storage.Upload.{
  choose_ulid, write_blob, previous_record, file_id_for, new_file_record, new_file_version,
  save_blob, found, record_upload, finish_upload, upload,
}
use yeetbox.Storage.WellFormed.{IsWellFormed}
use yeetbox.Text.{trim}
use yeetbox.Storage.Keeps.{Leaves-db}
use yeetbox.Storage.Atomicity.{choose_ulid-Leaves, write_blob-Leaves}
use yeetbox.Storage.Safety.{
  IsCalm, IsCalm-pure, calm_if, then_pure_calm, calm_rules, calm_bind, calm_lift, calm_lift_rest,
  calm_require, calm_gets, calm_call,
}
use yeetbox.Storage.Safety.Values.{fs_record_calm, fs_long, get_next_id-IsCalm}

found_calm : (r : Result FsRecordValue) → r ≢ panicked → found r ≢ panicked
found_calm (ok r) h = λ e. cc e
found_calm (err x) h = λ e. cc e
found_calm panicked h = absurd (h refl)

module _ ⦃E : Env⦄ (clock : HasClock E) where
  pub make_directory_calm :
      (req : MakeDirectoryArg) (s : World) → (make_directory req s).0 ≢ panicked
  unfolding make_directory descend_raw
  make_directory_calm req s = calm_require _ _ req.target _ λ target e1.
      calm_require _ _ (pop target.path) _ λ p e2. calm_call _ _ _ _ (
        calm_call _ _ _ _ (
          calm_gets _ _ _ (
            calm_lift_rest _ _ _ (walk_calm _ _ _ _ _) λ parent_id e3. search calm_rules depth 30)))

  choose_ulid-IsCalm : (continuation : Bytes) → IsCalm (choose_ulid continuation)
  unfolding choose_ulid
  choose_ulid-IsCalm continuation = search calm_rules

  write_blob-IsCalm : (p contents : Bytes) → IsCalm (write_blob p contents)
  unfolding write_blob
  write_blob-IsCalm p contents = search calm_rules depth 10

  file_id_for-IsCalm : (previous : Option FsRecordValue) (w : Db) → IsCalm (file_id_for previous w)
  unfolding file_id_for
  file_id_for-IsCalm none w = get_next_id-IsCalm _ w
  file_id_for-IsCalm (some r) w = search calm_rules

  new_file_record-IsCalm :
      (previous : Option FsRecordValue) (id ulid : ℕ) → IsCalm (new_file_record previous id ulid)
  unfolding new_file_record
  new_file_record-IsCalm previous id ulid = search calm_rules depth 10

  new_file_version-IsCalm : (req : UploadArg) → IsCalm (new_file_version req)
  unfolding new_file_version
  new_file_version-IsCalm req = search calm_rules

  save_blob-IsCalm : (single : Bool) (base p : Bytes) → IsCalm (save_blob single base p)
  unfolding save_blob
  save_blob-IsCalm true base p = search calm_rules
  save_blob-IsCalm false base p = search calm_rules depth 10

  previous_record_calm :
      (next : Bool) (w : Db) (key : Bytes) (existing : Option Bytes)
      → IsWellFormed w
      → E.tables.get w.fs key ≡ some existing
      → previous_record next existing ≢ panicked
  unfolding previous_record
  previous_record_calm next w key none wf e = λ h. cc h
  previous_record_calm false w key (some bytes) wf e = λ h. cc h
  previous_record_calm true w key (some bytes) wf e =
      found_calm (fs_record_from_bytes bytes) (fs_record_calm bytes (fs_long w key wf e refl))

  record_upload_calm :
      (req : UploadArg) (ulid : ℕ) (base p : Bytes) (parent_id : ℕ) (name : Text) (w : Db)
      (s : World)
      → IsWellFormed w
      → (record_upload req ulid base p parent_id name w s).0 ≢ panicked
  unfolding record_upload
  record_upload_calm req ulid base p parent_id name w s wf = calm_call _ _ _ _ (
      calm_call _ _ _ _ (
        calm_require _ _ _ _ λ existing e1.
          calm_lift_rest _ _ _ (previous_record_calm req.next w _ existing wf e1) λ previous e2.
            search
              (
                calm_rules, file_id_for-IsCalm, new_file_record-IsCalm, new_file_version-IsCalm,
                save_blob-IsCalm,
              )
              depth 40))

  finish_upload_calm :
      (req : UploadArg) (ulid : ℕ) (base p : Bytes) (parents : List Text) (name : Text) (s : World)
      → IsWellFormed s.db
      → (finish_upload req ulid base p parents name s).0 ≢ panicked
  unfolding finish_upload descend_raw
  finish_upload_calm req ulid base p parents name s wf = calm_call _ _ _ _ (
      calm_call _ _ _ _ (
        calm_gets _ _ _ (
          calm_lift _ _ _ (walk_calm _ _ _ _ _) λ parent_id e1.
            then_pure_calm _ _ _
              (record_upload_calm req ulid base p parent_id (trim name) s.db _ wf))))

  pub upload_calm : (req : UploadArg) (s : World) → IsWellFormed s.db → (upload req s).0 ≢ panicked
  unfolding upload
  upload_calm req s wf = calm_require _ _ req.target _ λ target e1.
      calm_require _ _ (pop target.path) _ λ p e2.
        calm_bind _ _ _ (choose_ulid-IsCalm _) λ ulid t e3. calm_gets _ _ _ (
          calm_bind _ _ _ (write_blob-IsCalm _ _) λ u t' e4.
            let same = Leaves-db (write_blob-Leaves _ _) e4 ∙ Leaves-db (choose_ulid-Leaves _) e3 in
            calm_if _ req.incomplete _ _ ((IsCalm-pure _).at t')
              (finish_upload_calm req ulid _ _ p.0 p.1 t' (subst IsWellFormed (sym same) wf)))
