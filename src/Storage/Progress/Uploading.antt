-- ===== src/Storage/Progress/Uploading.antt =====
-- Uploads that succeed (yeetbox-server/src/storage/database.rs).
use yeetbox.Common.{
  ◌+◌, ℕ, ◌≡◌, refl, ap, ◌∙◌, Bool, true, false, none, some, List, Bytes, length, ◌==◌, String,
}
use yeetbox.Time64
use yeetbox.Common.Int.{pos}
use yeetbox.Env.{HasClock, Env, done}
use yeetbox.Text.{trim}
use yeetbox.Records.{root_fsid}
use yeetbox.Storage.State.{World, Db, ◌>>=◌, change_files, write_files, pop, pure, now, new_ulid}
use yeetbox.Storage.Path.{Text, make_key, raw_key, descend_raw}
use yeetbox.Storage.Path.Resolve.{Resolves, get-eq-find, Resolves-walk}
use yeetbox.Storage.Request.{UploadArg, FileId}
use yeetbox.Storage.Sequence.{get_next_id}
use yeetbox.Storage.Upload.{
  upload, choose_ulid, write_blob, finish_upload, record_upload, previous_record, file_id_for,
  new_file_record, new_file_version, save_blob, is_single_message,
}
use yeetbox.Storage.Upload.Recorded.{file_id_for-fs}
use yeetbox.Storage.Keeps.{Leaves-db}
use yeetbox.Storage.Atomicity.{choose_ulid-Leaves, write_blob-Leaves}
use yeetbox.Storage.Progress.{
  IsReliable, Succeeds, go_require, go_lift, go_gets, go_then, go_some, go_call, go_refuse,
  go_commit, nothing_replaced, go_pure, go_else,
}

-- A file can be made and written to.
pub record IsWritable (E : Env) : Type 0 where
  pub opens :
      (d : E.files.Disk) (p : Bytes)
      → (d' : E.files.Disk) × (E.files.open_append true d p ≡ done d')
  pub writes :
      (d : E.files.Disk) (p bs : Bytes)
      → (d' : E.files.Disk) × (n : ℕ) × (E.files.write d p bs ≡ done (d', n))

module _ ⦃E : Env⦄ (reliable : IsReliable E) (clock : HasClock E) where
  get_next_id-Succeeds :
      (message : String) (w : Db) (s : World) → Succeeds (get_next_id message w) s
  unfolding get_next_id
  get_next_id-Succeeds message w s = go_call _ _ reliable _ _ (
      go_some _ _ _ _ (reliable.seq_reads _ _)
        λ last e1. go_some _ _ _ _ (reliable.seq_inserts _ _ _) λ inserted e2. go_pure _ _)

  file_id_for-Succeeds : (w : Db) (s : World) → Succeeds (file_id_for none w) s
  unfolding file_id_for
  file_id_for-Succeeds w s = get_next_id-Succeeds _ w s

  now-Succeeds : (s : World) → Succeeds now s
  unfolding now
  now-Succeeds s =
      let (nanos, since) = clock.since_epoch s.tick in
      let e : Time64.now (E.system_time s.tick) ≡ Time64.now (pos nanos) = ap Time64.now since in
      (_, _, ap (λ r. (r, record s { tick = s.tick + 1 })) e)

  new_file_record-Succeeds : (id ulid : ℕ) (s : World) → Succeeds (new_file_record none id ulid) s
  unfolding new_file_record
  new_file_record-Succeeds id ulid s = go_then _ _ _ (now-Succeeds _) λ created t e.
      go_then _ _ _ (now-Succeeds _)
        λ modified t' e'. go_then _ _ _ (now-Succeeds _) λ accessed t'' e''. go_pure _ _

  new_file_version-Succeeds : (req : UploadArg) (s : World) → Succeeds (new_file_version req) s
  unfolding new_file_version
  new_file_version-Succeeds req s = go_then _ _ _ (now-Succeeds _) λ created t e. go_pure _ _

  save_blob-Succeeds :
      (single : Bool) (base p : Bytes) (s : World)
      → single ≡ true
      → Succeeds (save_blob single base p) s
  unfolding save_blob pure
  save_blob-Succeeds true base p s e = (p, s, refl)
  save_blob-Succeeds false base p s e = absurd (cc e)

  record_upload-Succeeds :
      (req : UploadArg) (ulid : ℕ) (base p : Bytes) (parent_id : ℕ) (name : Text) (w : Db)
      (s : World)
      → is_single_message req ≡ true
      → E.tables.find w.fs (make_key parent_id name) ≡ none
      → Succeeds (record_upload req ulid base p parent_id name w) s
  unfolding record_upload previous_record
  record_upload-Succeeds req ulid base p parent_id name w s single free = go_call _ _ reliable _ _ (
      go_call _ _ reliable _ _ (
        go_require _ _ _ _ none (get-eq-find reliable.readable w.fs _ ∙ ap some free) (
          go_lift _ _ _ none refl (
            go_then _ _ _ (file_id_for-Succeeds w _) λ next t e1.
              go_then _ _ _ (new_file_record-Succeeds _ _ _) λ file t2 e2.
                go_some _ _ _ _ (reliable.inserts _ _ _) λ inserted e3.
                  go_refuse _ _ _ _
                    (nothing_replaced _ (
                      E.tables.insert_old _ _ _ e3
                      ∙ ap (λ f. E.tables.find f (make_key parent_id name))
                          (file_id_for-fs none w _ t next e1)
                      ∙ free))
                    (go_then _ _ _ (new_file_version-Succeeds req _) λ version t3 e4.
                      go_then _ _ _ (save_blob-Succeeds _ base p _ single) λ saved t4 e5.
                        go_call _ _ reliable _ _ (
                          go_some _ _ _ _ (reliable.inserts _ _ _)
                            λ versioned e6. go_commit reliable _ _ _))))))

  choose_ulid-Succeeds :
      (continuation : Bytes) (s : World)
      → (length continuation == 0) ≡ true
      → Succeeds (choose_ulid continuation) s
  unfolding choose_ulid new_ulid
  choose_ulid-Succeeds continuation s e = rw e (_, _, refl)

  finish_upload-Succeeds :
      (req : UploadArg) (ulid : ℕ) (base p : Bytes) (parents : List Text) (name : Text) (s : World)
      (parent_id : ℕ)
      → is_single_message req ≡ true
      → Resolves raw_key s.db.fs root_fsid parents parent_id
      → E.tables.find s.db.fs (make_key parent_id (trim name)) ≡ none
      → Succeeds (finish_upload req ulid base p parents name) s
  unfolding finish_upload descend_raw
  finish_upload-Succeeds req ulid base p parents name s parent_id single found free =
      go_call _ _ reliable _ _ (
        go_call _ _ reliable _ _ (
          go_gets _ _ _ (
            go_lift _ _ _ parent_id (Resolves-walk raw_key _ s.db.fs reliable.readable found) (
              go_then _ _ _
                (record_upload-Succeeds req ulid base p parent_id (trim name) s.db _ single free)
                λ u t e. go_pure _ _))))

  module _ (writable : IsWritable E) where
    write_blob-Succeeds : (p contents : Bytes) (s : World) → Succeeds (write_blob p contents) s
    unfolding write_blob ◌>>=◌ change_files write_files pure
    write_blob-Succeeds p contents s =
        let (d, opened) = writable.opens s.disk p in
        let (d', n, written) = writable.writes d p contents in
        (tt, record s { disk = d' }, rw (opened, written) refl)

    -- Where no call of the database fails, the clock is never before the Unix epoch, and files can be
    -- made and written to, a whole upload in
    -- one message succeeds if the target's parents lead to a folder that has no entry under the
    -- trimmed last name.
    pub upload-Succeeds :
        (req : UploadArg) (s : World) (target : FileId) (parents : List Text) (name : Text)
        (parent_id : ℕ)
        → req.incomplete ≡ false
        → (length req.continuation == 0) ≡ true
        → req.target ≡ some target
        → pop target.path ≡ some (parents, name)
        → Resolves raw_key s.db.fs root_fsid parents parent_id
        → E.tables.find s.db.fs (make_key parent_id (trim name)) ≡ none
        → Succeeds (upload req) s
    unfolding upload
    upload-Succeeds req s target parents name parent_id complete single e1 e2 found free =
        go_require _ _ req.target _ target e1 (
          go_require _ _ (pop target.path) _ (parents, name) e2
            (go_then _ _ _ (choose_ulid-Succeeds _ s single) λ ulid t e3. go_gets _ _ _ (
              go_then _ _ _ (write_blob-Succeeds _ _ _) λ u t' e4.
                let same =
                  Leaves-db (write_blob-Leaves _ _) e4 ∙ Leaves-db (choose_ulid-Leaves _) e3 in
                go_else _ req.incomplete _ _ complete (
                  finish_upload-Succeeds req ulid _ _ parents name t' parent_id
                    (rw (complete, single) refl) (rw same found) (rw same free)))))
