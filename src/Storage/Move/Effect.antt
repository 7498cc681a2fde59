-- ===== src/Storage/Move/Effect.antt =====
-- What a successful `move` has done (yeetbox-server/src/storage/database.rs).
use yeetbox.Common.{
  ℕ, ◌≡◌, sym, ap, ◌∙◌, false, Option, none, some, List, Bytes, bytes_eq, ◌++◌, if◌then◌else◌,
}
use yeetbox.Status.{ok, none_of_is_some}
use yeetbox.Env.{Env}
use yeetbox.Records.{FsRecordValue, root_fsid, bytes_of_record, fs_record_from_bytes}
use yeetbox.Storage.State.{World, Db, pop}
use yeetbox.Storage.Path.{Text, make_key, descend_path}
use yeetbox.Storage.Path.Resolve.{Resolves, walk-Resolves}
use yeetbox.Storage.Append.{is_other_version}
use yeetbox.Storage.Request.{MoveArg, RequestedFileId, RequestedFileVersion}
use yeetbox.Storage.Move.{move_record, move}
use yeetbox.Storage.Inversion.{
  after_require, after_lift, after_refuse, after_call, after_gets, after_commit,
}

module _ ⦃E : Env⦄ where
  -- The record has left one key for another, which was free when it had left, and has its new name.
  pub record Rekeyed (src dest : Bytes) (name : Text) (version : Option RequestedFileVersion)
      (w w' : Db) : Type 0 where
    pub bytes : Bytes
    pub file : FsRecordValue
    pub was_there : E.tables.find w.fs src ≡ some bytes
    pub file_read : fs_record_from_bytes bytes ≡ ok file
    pub is_latest : is_other_version version file.latest_version ≡ false
    pub was_free : (if bytes_eq src dest then none else E.tables.find w.fs dest) ≡ none
    pub stored :
        (j : Bytes)
        → E.tables.find w'.fs j ≡ (
            if bytes_eq dest j
            then some (bytes_of_record file ++ name)
            else if bytes_eq src j
            then none
            else E.tables.find w.fs j)
    pub same_seq : w'.seq ≡ w.seq
    pub same_ver : w'.ver ≡ w.ver

  move_record_effect :
      (src dest : Bytes) (name : Text) (version : Option RequestedFileVersion) (w : Db)
      (s s' : World)
      → move_record src dest name version w s ≡ (ok tt, s')
      → Rekeyed src dest name version w s'.db
  unfolding move_record
  move_record_effect src dest name version w s s' = after_require _ _ _ _ λ removed e1.
      after_require _ _ _ _ λ bytes e2. after_lift _ _ _ λ file e3. after_refuse _ _ _ _ λ e4.
        after_require _ _ _ _ λ inserted e5. after_refuse _ _ _ _ λ e6. after_commit _ _ _ λ e7.
          record {
            bytes = bytes;
            file = file;
            was_there = sym (E.tables.remove_old _ _ e1) ∙ e2;
            file_read = e3;
            is_latest = e4;
            was_free =
                sym (E.tables.find-remove _ _ e1 dest)
                ∙ sym (E.tables.insert_old _ _ _ e5)
                ∙ none_of_is_some inserted.1 e6;
            stored =
                λ j. rw (e7, ← E.tables.find-remove _ _ e1 j) (E.tables.find-insert _ _ _ e5 j);
            same_seq = ap (λ (t : World). t.db.seq) e7;
            same_ver = ap (λ (t : World). t.db.ver) e7;
          }

  -- Both directories were there, and the entry has gone from the one to the other.
  pub record Moved (req : MoveArg) (s s' : World) : Type 0 where
    pub target : RequestedFileId
    pub src_dir : List Text
    pub src_name : Text
    pub dest_dir : List Text
    pub dest_name : Text
    pub src_id : ℕ
    pub dest_id : ℕ
    pub target_given : req.target ≡ some target
    pub path_given : pop target.path ≡ some (src_dir, src_name)
    pub destination_given : pop req.destination ≡ some (dest_dir, dest_name)
    pub src_found : Resolves make_key s.db.fs root_fsid src_dir src_id
    pub dest_found : Resolves make_key s.db.fs root_fsid dest_dir dest_id
    pub rekeyed :
        Rekeyed
          (make_key src_id src_name)
          (make_key dest_id dest_name)
          dest_name
          target.version
          s.db
          s'.db

  -- If `move` succeeds, both directories led to folders, the source was stored and had the asked
  -- version as its latest, and the destination was free once the source was gone, whatever the
  -- request's `next` is, for which remotefs.proto promises a new version of what is there; the record
  -- is now under the destination's key with the new name behind it, the source's key is free unless
  -- it is the same, and no other entry, sequence or version has changed.
  pub move_effect : (req : MoveArg) (s s' : World) → move req s ≡ (ok tt, s') → Moved req s s'
  unfolding move descend_path
  move_effect req s s' = after_require _ _ req.target _ λ target e1.
      after_require _ _ (pop req.destination) _ λ d e2.
        after_require _ _ (pop target.path) _ λ p e3. after_call _ _ _ _ (
          after_call _ _ _ _ (
            after_gets _ _ _ (
              after_lift _ _ _ λ src_id e4. after_lift _ _ _ λ dest_id e5. λ h. record {
                target = target;
                src_dir = p.0;
                src_name = p.1;
                dest_dir = d.0;
                dest_name = d.1;
                src_id = src_id;
                dest_id = dest_id;
                target_given = e1;
                path_given = e3;
                destination_given = e2;
                src_found = walk-Resolves make_key _ s.db.fs root_fsid p.0 e4;
                dest_found = walk-Resolves make_key _ s.db.fs root_fsid d.0 e5;
                rekeyed = move_record_effect _ _ d.1 target.version s.db _ s' h;
              })))
