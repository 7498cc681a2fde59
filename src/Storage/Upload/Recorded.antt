-- ===== src/Storage/Upload/Recorded.antt =====
-- What the write transaction of an upload records (yeetbox-server/src/storage/database.rs).
use yeetbox.Common.{
  ◌≤◌, arith, ℕ, ◌≡◌, refl, sym, ap, ◌∙◌, Bool, Option, none, some, Bytes, bytes_eq, ◌++◌,
  if◌then◌else◌,
}
use yeetbox.Status.{ok, none_of_is_some}
use yeetbox.Env.{Env}
use yeetbox.Words.{add64}
use yeetbox.Records.{
  FsRecordValue, VersionRecordValue, obj_type_version_blob, bytes_of_record, bytes_of_version,
  bytes_of_version_key,
}
use yeetbox.Storage.State.{World, Db}
use yeetbox.Storage.Path.{Text, make_key}
use yeetbox.Storage.Sequence.{fs_table_name, or_zero, version_table}
use yeetbox.Storage.Sequence.Effect.{NextId, get_next_id_effect}
use yeetbox.Storage.Request.{UploadArg}
use yeetbox.Storage.Upload.{
  previous_record, file_id_for, new_file_record, is_single_message, record_upload,
}
use yeetbox.Storage.Upload.Disk.{
  KeepsDisk-disk, KeepsDisk-path, KeepsDisk-tick, file_id_for-KeepsDisk, new_file_record-KeepsDisk,
  new_file_version-KeepsDisk,
}
use yeetbox.Storage.Upload.Blob.{Saved, save_blob-Saved, Saved-since}
use yeetbox.Storage.Inversion.{
  after_bind, after_require, after_lift, after_refuse, after_call, after_now, after_commit,
  at_return,
}

module _ ⦃E : Env⦄ where
  -- The record of a new file: version 1 under a fresh id, with the blob that came in.
  pub record NewFile (id ulid : ℕ) (r : FsRecordValue) : Type 0 where
    pub has_id : r.id ≡ id
    pub has_type : r.type ≡ obj_type_version_blob
    pub has_version : r.latest_version ≡ 1
    pub has_blob : r.blob_ulid ≡ ulid

  new_file_record_effect :
      (id ulid : ℕ) (s s' : World) (r : FsRecordValue)
      → new_file_record none id ulid s ≡ (ok r, s')
      → NewFile id ulid r
  unfolding new_file_record
  new_file_record_effect id ulid s s' r = after_now _ _ λ created e1. after_now _ _ λ modified e2.
      after_now _ _ λ accessed e3. at_return _ _ λ e _.
        rw (← e) (record { has_id = refl; has_type = refl; has_version = refl; has_blob = refl })

  -- The name was free; now a new file has it, and the file has its first version. All else is as
  -- it was, but for the sequence, which has gone on by one.
  pub record Recorded (single : Bool) (base p key : Bytes) (name : Text) (ulid : ℕ) (w w' : Db)
      (tick : ℕ) (d d' : E.files.Disk) : Type 0 where
    pub file : FsRecordValue
    pub version : VersionRecordValue
    pub blob_path : Bytes
    pub versions : E.tables.Table
    pub was_free : E.tables.find w.fs key ≡ none
    pub is_new : NewFile (add64 (or_zero (E.sequences.find w.seq fs_table_name)) 1) ulid file
    pub stored :
        (j : Bytes)
        → E.tables.find w'.fs j
          ≡ (if bytes_eq key j then some (bytes_of_record file ++ name) else E.tables.find w.fs j)
    pub next_seq :
        (j : Bytes)
        → E.sequences.find w'.seq j
          ≡ (if bytes_eq fs_table_name j then some file.id else E.sequences.find w.seq j)
    pub blob_saved : Saved single base p blob_path tick d d'
    pub has_versions : w'.ver ≡ some versions
    pub version_stored :
        (j : Bytes)
        → E.tables.find versions j ≡ (
            if bytes_eq (bytes_of_version_key (record { file_id = file.id; version = 1 })) j
            then some (bytes_of_version version ++ blob_path)
            else E.tables.find (version_table w) j)

  pub Recorded-since :
      {single : Bool} {base p key : Bytes} {name : Text} {ulid : ℕ} {w w' : Db} {tick tick' : ℕ}
      {d d' : E.files.Disk}
      → tick ≤ tick'
      → Recorded single base p key name ulid w w' tick' d d'
      → Recorded single base p key name ulid w w' tick d d'
  Recorded-since earlier a = record {
    file = a.file;
    version = a.version;
    blob_path = a.blob_path;
    versions = a.versions;
    was_free = a.was_free;
    is_new = a.is_new;
    stored = a.stored;
    next_seq = a.next_seq;
    blob_saved = Saved-since earlier a.blob_saved;
    has_versions = a.has_versions;
    version_stored = a.version_stored;
  }

  -- The record that goes into a free place is that of a new file.
  file_id_for_effect :
      (previous : Option FsRecordValue) (w : Db) (s s' : World) (next : Db × ℕ)
      → previous ≡ none
      → file_id_for previous w s ≡ (ok next, s')
      → NextId w next
  unfolding file_id_for
  file_id_for_effect none w s s' next e h = get_next_id_effect _ w s s' next h
  file_id_for_effect (some r) w s s' next e h = absurd (cc e)

  pub file_id_for-fs :
      (previous : Option FsRecordValue) (w : Db) (s s' : World) (next : Db × ℕ)
      → file_id_for previous w s ≡ (ok next, s')
      → next.0.fs ≡ w.fs
  unfolding file_id_for
  file_id_for-fs none w s s' next h = (get_next_id_effect _ w s s' next h).same_fs
  file_id_for-fs (some r) w s s' next h = at_return _ _ (λ e _. rw (← e) refl) h

  previous_of_free :
      (next : Bool) (existing : Option Bytes) {previous : Option FsRecordValue}
      → existing ≡ none
      → previous_record next existing ≡ ok previous
      → previous ≡ none
  unfolding previous_record
  previous_of_free next none e h = cc h
  previous_of_free next (some bytes) e h = absurd (cc e)

  version_table-cong : (w w' : Db) → w.ver ≡ w'.ver → version_table w ≡ version_table w'
  version_table-cong w w' e = ap (λ v. elim v [ none ↦ E.tables.empty | some t ↦ t ]) e

  -- The write transaction has recorded a new file.
  pub record_upload_effect :
      (req : UploadArg) (ulid : ℕ) (base p : Bytes) (parent_id : ℕ) (name : Text) (w : Db)
      (s s' : World)
      → record_upload req ulid base p parent_id name w s ≡ (ok tt, s')
      → Recorded
          (is_single_message req)
          base
          p
          (make_key parent_id name)
          name
          ulid
          w
          s'.db
          s.tick
          s.disk
          s'.disk
        × (s'.blobs_path ≡ s.blobs_path)
  unfolding record_upload
  record_upload_effect req ulid base p parent_id name w s s' = after_call _ _ _ _ (
      after_call _ _ _ _ (
        after_require _ _ _ _ λ existing e1. after_lift _ _ _ λ previous e2.
          after_bind _ _ _ λ next s3 e3. after_bind _ _ _ λ file s4 e4.
            after_require _ _ _ _ λ inserted e5. after_refuse _ _ _ _ λ e6.
              after_bind _ _ _ λ version s7 e7. after_bind _ _ _ λ saved s8 e8. after_call _ _ _ _ (
                after_require _ _ _ _ λ versioned e9. after_commit _ _ _ λ e10.
                  let same_fs = file_id_for-fs previous w _ s3 next e3 in
                  let free = sym (E.tables.insert_old _ _ _ e5) ∙ none_of_is_some inserted.1 e6 in
                  let no_previous =
                    previous_of_free req.next existing
                      (E.tables.get-find _ _ e1
                        ∙ ap (λ t. E.tables.find t (make_key parent_id name)) (sym same_fs)
                        ∙ free)
                      e2 in
                  let next_id = file_id_for_effect previous w _ s3 next no_previous e3 in
                  let new_file =
                    new_file_record_effect next.1 ulid s3 s4 file (rw no_previous at e4) in
                  let saved_blob = save_blob-Saved _ base p s7 s8 saved e8 in
                  let keeps3 = file_id_for-KeepsDisk previous w in
                  let keeps4 = new_file_record-KeepsDisk previous next.1 ulid in
                  let keeps7 = new_file_version-KeepsDisk req in
                  let same_disk =
                    KeepsDisk-disk keeps7 e7
                    ∙ KeepsDisk-disk keeps4 e4
                    ∙ KeepsDisk-disk keeps3 e3 in
                  let later : s.tick ≤ s7.tick = omega (
                    arith,
                    KeepsDisk-tick keeps7 e7,
                    KeepsDisk-tick keeps4 e4,
                    KeepsDisk-tick keeps3 e3,
                  ) in
                  let same_path =
                    KeepsDisk-path keeps7 e7
                    ∙ KeepsDisk-path keeps4 e4
                    ∙ KeepsDisk-path keeps3 e3 in
                  (
                    record {
                      file = file;
                      version = version;
                      blob_path = saved;
                      versions = versioned.0;
                      was_free =
                          ap (λ t. E.tables.find t (make_key parent_id name)) (sym same_fs) ∙ free;
                      is_new = rw (← next_id.id_next) new_file;
                      stored = λ j. rw (e10, ← same_fs) (E.tables.find-insert _ _ _ e5 j);
                      next_seq = λ j. rw (e10, new_file.has_id) (next_id.seq_next j);
                      blob_saved = rw (e10, ← same_disk) (Saved-since later saved_blob.0);
                      has_versions = ap (λ (t : World). t.db.ver) e10;
                      version_stored = E.tables.find-insert _ _ _ (
                          rw
                            (
                              ← new_file.has_id,
                              new_file.has_version,
                              version_table-cong next.0 w next_id.same_ver,
                            )
                            at e9);
                    },
                    ap (λ (t : World). t.blobs_path) e10 ∙ saved_blob.1 ∙ same_path,
                  ))))
