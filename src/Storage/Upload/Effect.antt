-- ===== src/Storage/Upload/Effect.antt =====
-- What a successful `upload` has done (yeetbox-server/src/storage/database.rs).
use yeetbox.Common.{arith, ℕ, ◌≡◌, sym, ap, ◌∙◌, true, false, some, List, Bytes}
use yeetbox.Status.{ok}
use yeetbox.Env.{Env}
use yeetbox.Text.{trim}
use yeetbox.Records.{root_fsid}
use yeetbox.Storage.State.{World, pop}
use yeetbox.Storage.Path.{Text, make_key, raw_key, descend_raw}
use yeetbox.Storage.Path.Resolve.{Resolves, walk-Resolves, Resolves-unique}
use yeetbox.Storage.Request.{UploadArg, FileId}
use yeetbox.Storage.Upload.{blob_path_of, is_single_message, finish_upload, upload}
use yeetbox.Storage.Upload.Blob.{IsChosen, choose_ulid-IsChosen, Written, write_blob-Written}
use yeetbox.Storage.Upload.Recorded.{Recorded, Recorded-since, record_upload_effect}
use yeetbox.Storage.Keeps.{Leaves-db, Leaves-path}
use yeetbox.Storage.Atomicity.{choose_ulid-Leaves, write_blob-Leaves}
use yeetbox.Storage.Inversion.{
  after_bind, after_require, after_lift, after_call, after_gets, at_return, after_unless,
  after_when,
}

module _ ⦃E : Env⦄ where
  -- A whole file came in: its parents lead to a folder, where it now is under its trimmed name.
  pub record Uploaded (req : UploadArg) (s s' : World) : Type 0 where
    pub target : FileId
    pub parents : List Text
    pub name : Text
    pub parent_id : ℕ
    pub ulid : ℕ
    pub target_given : req.target ≡ some target
    pub path_given : pop target.path ≡ some (parents, name)
    pub parent_found : Resolves raw_key s.db.fs root_fsid parents parent_id
    pub is_chosen : IsChosen req.continuation s ulid
    pub disk : E.files.Disk
    pub written : Written (blob_path_of s.blobs_path ulid) req.contents s.disk disk
    pub recorded :
        Recorded
          (is_single_message req)
          s.blobs_path
          (blob_path_of s.blobs_path ulid)
          (make_key parent_id (trim name))
          (trim name)
          ulid
          s.db
          s'.db
          s.tick
          disk
          s'.disk
    pub same_base : s'.blobs_path ≡ s.blobs_path

  finish_upload_effect :
      (req : UploadArg) (ulid : ℕ) (base p : Bytes) (parents : List Text) (name : Text)
      (s s' : World) (token : Bytes)
      → finish_upload req ulid base p parents name s ≡ (ok token, s')
      → (parent_id : ℕ) × Resolves raw_key s.db.fs root_fsid parents parent_id
        × Recorded
            (is_single_message req)
            base
            p
            (make_key parent_id (trim name))
            (trim name)
            ulid
            s.db
            s'.db
            s.tick
            s.disk
            s'.disk
        × (s'.blobs_path ≡ s.blobs_path)
  unfolding finish_upload descend_raw
  finish_upload_effect req ulid base p parents name s s' token = after_call _ _ _ _ (
      after_call _ _ _ _ (
        after_gets _ _ _ (
          after_lift _ _ _ λ parent_id e1. after_bind _ _ _ λ u t e2. at_return _ _ λ _ e3.
            let (recorded, same_base) =
              record_upload_effect req ulid base p parent_id (trim name) s.db _ t e2 in
            (
              parent_id,
              walk-Resolves raw_key _ s.db.fs root_fsid parents e1,
              rw (← e3) (Recorded-since (omega arith) recorded),
              ap (λ (w : World). w.blobs_path) (sym e3) ∙ same_base,
            ))))

  -- If an upload that is not incomplete succeeds, its parents led to a folder where the trimmed
  -- last name was free; a new file with version 1 and the id one above the sequence is stored
  -- there, its version is stored under that id and number, the sequence has gone on by one, and no
  -- other entry has changed. The blob is a new one if the token is empty, and that of the token
  -- otherwise, and a part of the data has gone to its end. If the token is empty, the stored version
  -- names it as it is. Otherwise it names a path made of a ULID that was drawn since the request
  -- came, where its data is now, and there is no file under the old name any more, unless the new
  -- name was the old one or that of a file.
  pub upload_effect :
      (req : UploadArg) (s s' : World) (token : Bytes)
      → req.incomplete ≡ false
      → upload req s ≡ (ok token, s')
      → Uploaded req s s'
  unfolding upload
  upload_effect req s s' token complete = after_require _ _ req.target _ λ target e1.
      after_require _ _ (pop target.path) _ λ p e2. after_bind _ _ _ λ ulid t e3. after_gets _ _ _ (
        after_bind _ _ _ λ u t' e4. after_unless _ req.incomplete _ _ complete λ h.
          let (chosen, same_disk, drawn) = choose_ulid-IsChosen req.continuation s t ulid e3 in
          let (written, same_tick) = write_blob-Written _ req.contents t t' e4 in
          let base = Leaves-path (choose_ulid-Leaves _) e3 in
          let same = Leaves-db (write_blob-Leaves _ _) e4 ∙ Leaves-db (choose_ulid-Leaves _) e3 in
          let (parent_id, found, recorded, same_base) =
            finish_upload_effect req ulid _ _ p.0 p.1 t' s' token h in
          record {
            target = target;
            parents = p.0;
            name = p.1;
            parent_id = parent_id;
            ulid = ulid;
            target_given = e1;
            path_given = e2;
            parent_found = rw same at found;
            is_chosen = chosen;
            disk = t'.disk;
            written = rw (same_disk, base) at written;
            recorded =
                Recorded-since (omega (arith, drawn, same_tick)) (rw (same, base) at recorded);
            same_base = same_base ∙ Leaves-path (write_blob-Leaves _ _) e4 ∙ base;
          })

  -- A message that is not the last adds to the blob, and leaves the database alone; its answer is
  -- the token of the blob.
  pub record Collected (req : UploadArg) (s s' : World) (token : Bytes) : Type 0 where
    pub ulid : ℕ
    pub is_chosen : IsChosen req.continuation s ulid
    pub written : Written (blob_path_of s.blobs_path ulid) req.contents s.disk s'.disk
    pub token_given : token ≡ E.ulid_to_bytes ulid
    pub same_db : s'.db ≡ s.db
    pub same_base : s'.blobs_path ≡ s.blobs_path

  pub upload_incomplete_effect :
      (req : UploadArg) (s s' : World) (token : Bytes)
      → req.incomplete ≡ true
      → upload req s ≡ (ok token, s')
      → Collected req s s' token
  unfolding upload
  upload_incomplete_effect req s s' token more = after_require _ _ req.target _ λ target e1.
      after_require _ _ (pop target.path) _ λ p e2. after_bind _ _ _ λ ulid t e3. after_gets _ _ _ (
        after_bind _ _ _ λ u t' e4. after_when _ req.incomplete _ _ more (
          at_return _ _ λ e5 e6.
            let (chosen, same_disk, drawn) = choose_ulid-IsChosen req.continuation s t ulid e3 in
            let base = Leaves-path (choose_ulid-Leaves _) e3 in
            rw (← e6) (record {
              ulid = ulid;
              is_chosen = chosen;
              written = rw (same_disk, base) at ((write_blob-Written _ req.contents t t' e4).0);
              token_given = sym e5;
              same_db = Leaves-db (write_blob-Leaves _ _) e4 ∙ Leaves-db (choose_ulid-Leaves _) e3;
              same_base = Leaves-path (write_blob-Leaves _ _) e4 ∙ base;
            })))

  -- If the parents lead to a folder where the trimmed last name is taken, an upload that is not
  -- incomplete does not succeed, whether or not it asks for the next version.
  pub upload-no_new_version :
      (req : UploadArg) (s s' : World) (target : FileId) (parents : List Text) (name : Text)
      (parent_id : ℕ) (bytes token : Bytes)
      → req.incomplete ≡ false
      → req.target ≡ some target
      → pop target.path ≡ some (parents, name)
      → Resolves raw_key s.db.fs root_fsid parents parent_id
      → E.tables.find s.db.fs (make_key parent_id (trim name)) ≡ some bytes
      → ¬ upload req s ≡ (ok token, s')
  upload-no_new_version req s s' target parents name parent_id bytes token e1 e2 e3 e4 e5 h =
      let u = upload_effect req s s' token e1 h in
      let same_target : u.target ≡ target = cc (e2, u.target_given) in
      let same_parents : u.parents ≡ parents = cc (e3, u.path_given, same_target) in
      let same_name : u.name ≡ name = cc (e3, u.path_given, same_target) in
      let same_parent = Resolves-unique u.parent_found (rw (← same_parents) at e4) in
      absurd (cc (u.recorded.was_free, e5, same_parent, same_name))
