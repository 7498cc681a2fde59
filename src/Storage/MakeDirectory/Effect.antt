-- ===== src/Storage/MakeDirectory/Effect.antt =====
-- What a successful `make_directory` has done (yeetbox-server/src/storage/database.rs).
use yeetbox.Common.{
  ℕ, ◌≡◌, sym, ◌∙◌, ap, false, none, some, List, Bytes, bytes_eq, bytes_eq_refl, bytes_eq_iff,
  Bool-cases, inl, inr, ◌++◌, if◌then◌else◌,
}
use yeetbox.Status.{ok, none_of_is_some}
use yeetbox.Env.{Env}
use yeetbox.Words.{add64}
use yeetbox.Text.{trim}
use yeetbox.Records.{FsRecordValue, root_fsid, bytes_of_record}
use yeetbox.Storage.State.{World, pop}
use yeetbox.Storage.Path.{Text, make_key, raw_key, descend_raw}
use yeetbox.Storage.Path.Resolve.{Resolves, walk-Resolves}
use yeetbox.Storage.Sequence.{fs_table_name, or_zero}
use yeetbox.Storage.Request.{MakeDirectoryArg, FileId}
use yeetbox.Storage.MakeDirectory.{make_directory, folder_record}
use yeetbox.Storage.Inversion.{
  after_require, after_lift, after_refuse, after_call, after_gets, after_commit,
}

module _ ⦃E : Env⦄ where
  -- The parents lead to a folder, which had no entry of the new name; now it has a folder there,
  -- whose id is one above the sequence. All else is as it was, the sequence too.
  pub record Made (req : MakeDirectoryArg) (s s' : World) : Type 0 where
    pub target : FileId
    pub parents : List Text
    pub name : Text
    pub parent_id : ℕ
    pub target_given : req.target ≡ some target
    pub path_given : pop target.path ≡ some (parents, name)
    pub parent_found : Resolves raw_key s.db.fs root_fsid parents parent_id
    pub was_free : E.tables.find s.db.fs (make_key parent_id (trim name)) ≡ none
    pub stored :
        (j : Bytes)
        → E.tables.find s'.db.fs j ≡ (
            if bytes_eq (make_key parent_id (trim name)) j
            then some (
                bytes_of_record
                  (folder_record (add64 (or_zero (E.sequences.find s.db.seq fs_table_name)) 1))
                ++ trim name)
            else E.tables.find s.db.fs j)
    pub same_seq : s'.db.seq ≡ s.db.seq
    pub same_ver : s'.db.ver ≡ s.db.ver

  -- If `make_directory` succeeds, the target's parents led to a folder that had no entry under the
  -- trimmed last name; the database now holds a folder record there, with the id one above the
  -- sequence, and all else, the sequence included, is as before.
  pub make_directory_effect :
      (req : MakeDirectoryArg) (s s' : World) → make_directory req s ≡ (ok tt, s') → Made req s s'
  unfolding make_directory descend_raw
  make_directory_effect req s s' = after_require _ _ req.target _ λ target e1.
      after_require _ _ (pop target.path) _ λ p e2. after_call _ _ _ _ (
        after_call _ _ _ _ (
          after_gets _ _ _ (
            after_lift _ _ _ λ parent_id e3. after_call _ _ _ _ (
              after_call _ _ _ _ (
                after_require _ _ _ _ λ existing e4. after_refuse _ _ _ _ λ e5. after_call _ _ _ _ (
                  after_require _ _ _ _ λ last_id e6. after_require _ _ _ _ λ inserted e7.
                    after_refuse _ _ _ _ λ e8. after_commit _ _ _ λ e9. record {
                      target = target;
                      parents = p.0;
                      name = p.1;
                      parent_id = parent_id;
                      target_given = e1;
                      path_given = e2;
                      parent_found = walk-Resolves raw_key _ s.db.fs root_fsid p.0 e3;
                      was_free = sym (E.tables.get-find _ _ e4) ∙ none_of_is_some existing e5;
                      stored = λ j.
                          rw (e9, ← E.sequences.get-find _ _ e6) (E.tables.find-insert _ _ _ e7 j);
                      same_seq = ap (λ (t : World). t.db.seq) e9;
                      same_ver = ap (λ (t : World). t.db.ver) e9;
                    }))))))

  -- Two entries of a table hold the same record, whatever their names are.
  pub record SameRecord (t : E.tables.Table) : Type 0 where
    pub file : FsRecordValue
    pub key1 : Bytes
    pub key2 : Bytes
    pub name1 : Text
    pub name2 : Text
    pub other_key : bytes_eq key2 key1 ≡ false
    pub found1 : E.tables.find t key1 ≡ some (bytes_of_record file ++ name1)
    pub found2 : E.tables.find t key2 ≡ some (bytes_of_record file ++ name2)

  -- Two directories that are made one after the other, with no request between them, are stored
  -- under different keys with one and the same record, so with one id.
  pub make_directory-SameRecord :
      (req1 req2 : MakeDirectoryArg) (s t u : World)
      → make_directory req1 s ≡ (ok tt, t)
      → make_directory req2 t ≡ (ok tt, u)
      → SameRecord u.db.fs
  make_directory-SameRecord req1 req2 s t u e1 e2 =
      let d1 = make_directory_effect req1 s t e1 in
      let d2 = make_directory_effect req2 t u e2 in
      let key1 = make_key d1.parent_id (trim d1.name) in
      let key2 = make_key d2.parent_id (trim d2.name) in
      let stored1 = rw (bytes_eq_refl key1) at (d1.stored key1) in
      let other : bytes_eq key2 key1 ≡ false = elim (Bool-cases (bytes_eq key2 key1)) [
        | inl same ↦ absurd (cc (stored1, d2.was_free, (bytes_eq_iff key2 key1).0 same))
        | inr other ↦ other
      ] in
      record {
        file = folder_record (add64 (or_zero (E.sequences.find s.db.seq fs_table_name)) 1);
        key1 = key1;
        key2 = key2;
        name1 = trim d1.name;
        name2 = trim d2.name;
        other_key = other;
        found1 = rw other at (d2.stored key1) ∙ stored1;
        found2 = rw (bytes_eq_refl key2, d1.same_seq) at (d2.stored key2);
      }
