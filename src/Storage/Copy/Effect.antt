-- ===== src/Storage/Copy/Effect.antt =====
-- What a successful `copy` has done (yeetbox-server/src/storage/database.rs).
use yeetbox.Common.{
  ℕ, ◌≡◌, refl, sym, ap, ◌∙◌, none, some, List, Bytes, bytes_eq, ◌++◌, true, ◌⊎◌, inl, inr,
  Bool-cases, ◌+◌, arith, if◌then◌else◌,
}
use yeetbox.Status.{ok, none_of_is_some}
use yeetbox.Env.{Env}
use yeetbox.Words.{add64}
use yeetbox.Records.{
  FsRecordValue, root_fsid, obj_type_normal_blob, bytes_of_record, fs_record_from_bytes,
}
use yeetbox.Storage.State.{World, Db, pop, push, codes, lift}
use yeetbox.Storage.Path.{Text, make_key, descend_path}
use yeetbox.Storage.Path.Resolve.{Resolves, walk-Resolves}
use yeetbox.Storage.Sequence.{fs_table_name, or_zero}
use yeetbox.Storage.Sequence.Effect.{get_next_id_effect}
use yeetbox.Storage.Request.{CopyArg, RequestedFileId}
use yeetbox.Text.{decimal}
use yeetbox.Storage.Upload.{blob_path_of}
use yeetbox.Storage.Upload.Disk.{KeepsDisk, KeepsDisk-disk, disk_rules, get_next_id-KeepsDisk}
use yeetbox.Storage.Copy.{has_own_blob, needs_record_only, new_copy, copy_blob, copy_record, copy}
use yeetbox.Storage.Inversion.{
  after_bind, after_require, after_lift, after_refuse, after_call, after_gets, after_now,
  after_new_ulid, after_commit, at_change_files, after_when, after_unless, at_return,
}

module _ ⦃E : Env⦄ where
  abbrev source_path : Bytes → FsRecordValue → Bytes
  source_path base file = push base (decimal file.blob_ulid ++ codes ".blob")

  -- The name was free and now has a record of its own, of the default type, whatever the source is.
  -- The sequence has gone on by one, and no version was recorded.
  pub record Added (key : Bytes) (name : Text) (ulid : ℕ) (w w' : Db) : Type 0 where
    pub copied : FsRecordValue
    pub was_free : E.tables.find w.fs key ≡ none
    pub has_id : copied.id ≡ add64 (or_zero (E.sequences.find w.seq fs_table_name)) 1
    pub has_type : copied.type ≡ obj_type_normal_blob
    pub has_version : copied.latest_version ≡ 1
    pub has_blob : copied.blob_ulid ≡ ulid
    pub stored :
        (j : Bytes)
        → E.tables.find w'.fs j
          ≡ (if bytes_eq key j then some (bytes_of_record copied ++ name) else E.tables.find w.fs j)
    pub next_seq :
        (j : Bytes)
        → E.sequences.find w'.seq j
          ≡ (if bytes_eq fs_table_name j then some copied.id else E.sequences.find w.seq j)
    pub same_ver : w'.ver ≡ w.ver

  copy_record_effect :
      (key : Bytes) (name : Text) (ulid : ℕ) (w : Db) (s s' : World)
      → copy_record key name ulid w s ≡ (ok tt, s')
      → Added key name ulid w s'.db
  unfolding copy_record
  copy_record_effect key name ulid w s s' = after_now _ _ λ created e0.
      after_bind _ _ _ λ next t e1. after_require _ _ _ _ λ inserted e2. after_refuse _ _ _ _ λ e3.
        after_commit _ _ _ λ e4.
          let next_id = get_next_id_effect _ w _ t next e1 in
          let find_same : (j : Bytes) → E.tables.find next.0.fs j ≡ E.tables.find w.fs j =
            λ j. ap (λ f. E.tables.find f j) next_id.same_fs in
          record {
            copied = new_copy next.1 ulid created;
            was_free =
                sym (find_same key)
                ∙ sym (E.tables.insert_old _ _ _ e2)
                ∙ none_of_is_some inserted.1 e3;
            has_id = next_id.id_next;
            has_type = refl;
            has_version = refl;
            has_blob = refl;
            stored = λ j. rw (e4, ← find_same j) (E.tables.find-insert _ _ _ e2 j);
            next_seq = λ j. rw (e4) (next_id.seq_next j);
            same_ver = ap (λ (t : World). t.db.ver) e4 ∙ next_id.same_ver;
          }

  -- A blob of its own is copied, unless it is copied onto itself; nothing is if only the record is.
  abbrev pub CopiedBlob : FsRecordValue → Bytes → ℕ → E.files.Disk → E.files.Disk → Type 0
  CopiedBlob file base ulid d d' =
      ((has_own_blob file.type ≡ true)
        × ((E.files.content d' (blob_path_of base ulid) ≡ E.files.content d (source_path base file))
            ⊎ (bytes_eq (source_path base file) (blob_path_of base ulid) ≡ true)))
      ⊎ ((needs_record_only file.type ≡ true) × (d' ≡ d))

  copy_blob-CopiedBlob :
      (file : FsRecordValue) (ulid : ℕ) (base : Bytes) (s s' : World)
      → copy_blob file ulid base s ≡ (ok tt, s')
      → CopiedBlob file base ulid s.disk s'.disk
  unfolding copy_blob lift
  copy_blob-CopiedBlob file ulid base s s' h = elim (Bool-cases (has_own_blob file.type)) [
    | inl own ↦
        let (d, copied, e) = at_change_files _ s s' (after_when _ _ _ _ own (λ k. k) h) in
        inl (
          own,
          elim (Bool-cases (bytes_eq (source_path base file) (blob_path_of base ulid))) [
            | inl same ↦ inr same
            | inr other ↦ inl (rw e (E.files.content-copy _ _ _ other copied))
          ],
        )
    | inr other ↦
        let h' = after_unless _ _ _ _ other (λ k. k) h in
        elim (Bool-cases (needs_record_only file.type)) [
          | inl only ↦ inr (
            only,
            at_return _ _ (λ _ e. ap (λ (w : World). w.disk) (sym e))
                (after_when _ _ _ _ only (λ k. k) h'),
          )
          | inr neither ↦ absurd (cc (after_unless _ _ _ _ neither (λ k. k) h'))
        ]
  ]

  copy_record-KeepsDisk :
      (key : Bytes) (name : Text) (ulid : ℕ) (w : Db) → KeepsDisk (copy_record key name ulid w)
  unfolding copy_record
  copy_record-KeepsDisk key name ulid w = search (disk_rules, get_next_id-KeepsDisk) depth 20

  -- The source was there, and the destination has got its record.
  pub record Copied (req : CopyArg) (s s' : World) : Type 0 where
    pub target : RequestedFileId
    pub src_dir : List Text
    pub src_name : Text
    pub dest_dir : List Text
    pub dest_name : Text
    pub src_id : ℕ
    pub dest_id : ℕ
    pub bytes : Bytes
    pub file : FsRecordValue
    pub target_given : req.target ≡ some target
    pub path_given : pop target.path ≡ some (src_dir, src_name)
    pub destination_given : pop req.destination ≡ some (dest_dir, dest_name)
    pub src_found : Resolves make_key s.db.fs root_fsid src_dir src_id
    pub dest_found : Resolves make_key s.db.fs root_fsid dest_dir dest_id
    pub was_there : E.tables.find s.db.fs (make_key src_id src_name) ≡ some bytes
    pub file_read : fs_record_from_bytes bytes ≡ ok file
    pub ulid : ℕ
    pub is_new : ulid ≡ E.new_ulid (s.tick + 2)
    pub added : Added (make_key dest_id dest_name) dest_name ulid s.db s'.db
    pub blob : CopiedBlob file s.blobs_path ulid s.disk s'.disk

  -- If `copy` succeeds, the source was stored and the destination was free, whatever the
  -- request's `next` is, for which remotefs.proto promises a new version of what is there; the
  -- destination now has a record of the type of a normal blob, with version 1 and the id one
  -- above the sequence, the sequence has gone on by one, and no version and no other entry has
  -- changed, whatever the type of the source is. If the source has a blob of its own, the file
  -- under the name of a new ULID has what the file under the decimal digits of the source's ULID
  -- had, unless they are one file; for a link or a versioned blob the disk is as before. No other
  -- type is copied.
  pub copy_effect : (req : CopyArg) (s s' : World) → copy req s ≡ (ok tt, s') → Copied req s s'
  unfolding copy descend_path
  copy_effect req s s' = after_require _ _ req.target _ λ target e1.
      after_require _ _ (pop req.destination) _ λ d e2.
        after_require _ _ (pop target.path) _ λ p e3. after_call _ _ _ _ (
          after_call _ _ _ _ (
            after_gets _ _ _ (
              after_gets _ _ _ (
                after_lift _ _ _ λ src_id e4. after_lift _ _ _ λ dest_id e5.
                  after_require _ _ _ _ λ maybe_file e6. after_require _ _ _ _ λ bytes e7.
                    after_lift _ _ _ λ file e8. after_new_ulid _ _ (
                      after_bind _ _ _ λ u t e9. λ h. record {
                        target = target;
                        src_dir = p.0;
                        src_name = p.1;
                        dest_dir = d.0;
                        dest_name = d.1;
                        src_id = src_id;
                        dest_id = dest_id;
                        bytes = bytes;
                        file = file;
                        target_given = e1;
                        path_given = e3;
                        destination_given = e2;
                        src_found = walk-Resolves make_key _ s.db.fs root_fsid p.0 e4;
                        dest_found = walk-Resolves make_key _ s.db.fs root_fsid d.0 e5;
                        was_there = sym (E.tables.get-find _ _ e6) ∙ e7;
                        file_read = e8;
                        ulid = E.new_ulid (s.tick + 1 + 1);
                        is_new = ap E.new_ulid (omega arith);
                        added = copy_record_effect _ d.1 _ s.db t s' h;
                        blob =
                            rw (← KeepsDisk-disk (copy_record-KeepsDisk _ d.1 _ s.db) h) at
                              (copy_blob-CopiedBlob file _ s.blobs_path _ t e9);
                      })))))
