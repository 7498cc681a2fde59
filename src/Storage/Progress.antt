-- ===== src/Storage/Progress.antt =====
-- Where no call of the environment fails, operations succeed that have a reason to
-- (yeetbox-server/src/storage/database.rs): rules for each kind of step, and the operations.
pub mod Uploading
pub mod Downloading
use yeetbox.Common.{
  ℕ, ◌+◌, ◌≡◌, ◌≢◌, refl, sym, ap, ◌∙◌, Bool, true, false, Option, none, some, List, Bytes,
  bytes_eq, String, Option-cases, inl, inr, if◌then◌else◌,
}
use yeetbox.Status.{Status, Result, ok, refuse_if, or_refuse, is_some}
use yeetbox.Env.{Env, DbCall, IoResult, done}
use yeetbox.Text.{trim}
use yeetbox.Records.{root_fsid, fs_record_from_bytes, FsRecordValue}
use yeetbox.Storage.State.{
  World, Db, Action, pure, lift, gets, ◌>>=◌, call, commit_db, pop, read_files,
}
use yeetbox.Storage.Path.{Text, make_key, raw_key, descend_raw, descend_path}
use yeetbox.Storage.Path.Resolve.{Resolves, IsReadable, get-eq-find, Resolves-walk}
use yeetbox.Storage.Request.{
  MakeDirectoryArg, MoveArg, FileId, RequestedFileId, RequestedFileVersion,
}
use yeetbox.Storage.MakeDirectory.{make_directory}
use yeetbox.Storage.Append.{is_other_version}
use yeetbox.Storage.Move.{move, move_record}
use yeetbox.Storage.Inversion.{later}

-- No call of the database fails.
pub record IsReliable (E : Env) : Type 0 where
  pub allowed : (c : DbCall) (tick : ℕ) → E.allows c tick ≡ true
  pub readable : IsReadable E
  pub seq_reads : (t : E.sequences.Table) (k : Bytes) → E.sequences.get t k ≢ none
  pub inserts : (t : E.tables.Table) (k v : Bytes) → E.tables.insert t k v ≢ none
  pub seq_inserts : (t : E.sequences.Table) (k : Bytes) (v : ℕ) → E.sequences.insert t k v ≢ none
  pub removes : (t : E.tables.Table) (k : Bytes) → E.tables.remove t k ≢ none

module _ ⦃E : Env⦄ where
  abbrev pub Succeeds : {A : Type 0} → Action A → World → Type 0
  Succeeds {A} m s = (a : A) × (s' : World) × (m s ≡ (ok a, s'))

  module _ {A B : Type 0} (f : A → Action B) (s : World) where
    pub go_require :
        (o : Option A) (e : Status) (a : A)
        → o ≡ some a
        → Succeeds (f a) s
        → Succeeds (lift (or_refuse o e) >>= f) s
    unfolding ◌>>=◌ lift
    go_require o e a found (b, s', run) = (b, s', rw found run)

    pub go_lift : (r : Result A) (a : A) → r ≡ ok a → Succeeds (f a) s → Succeeds (lift r >>= f) s
    unfolding ◌>>=◌ lift
    go_lift r a found (b, s', run) = (b, s', rw found run)

    pub go_read :
        (g : E.files.Disk → IoResult A) (a : A)
        → g s.disk ≡ done a
        → Succeeds (f a) s
        → Succeeds (read_files g >>= f) s
    unfolding ◌>>=◌ read_files
    go_read g a found (b, s', run) = (b, s', rw found run)

    pub go_gets : (g : World → A) → Succeeds (f (g s)) s → Succeeds (gets g >>= f) s
    unfolding ◌>>=◌ gets
    go_gets g run = run

    pub go_then :
        (m : Action A)
        → Succeeds m s
        → ((a : A) (t : World) → m s ≡ (ok a, t) → Succeeds (f a) t)
        → Succeeds (m >>= f) s
    unfolding ◌>>=◌
    go_then m (a, t, run) k = let (b, s', rest) = k a t run in (b, s', rw run rest)

    -- A call that gives something, whatever that is.
    pub go_some :
        (o : Option A) (e : Status)
        → o ≢ none
        → ((a : A) → o ≡ some a → Succeeds (f a) s)
        → Succeeds (lift (or_refuse o e) >>= f) s
    go_some o e some_ k = elim (Option-cases o) [
      | inl missing ↦ absurd (some_ missing)
      | inr (a, found) ↦ go_require o e a found (k a found)
    ]

  module _ {B : Type 0} (f : Unit {0} → Action B) (s : World) where
    pub go_call :
        IsReliable E
        → (c : DbCall) (message : String) → Succeeds (f tt) (later s)
        → Succeeds (call c message >>= f) s
    unfolding ◌>>=◌ call
    go_call reliable c message (b, s', run) = (b, s', rw (reliable.allowed c s.tick) run)

    pub go_refuse :
        (c : Bool) (e : Status)
        → c ≡ false
        → Succeeds (f tt) s
        → Succeeds (lift (refuse_if c e) >>= f) s
    unfolding ◌>>=◌ lift
    go_refuse c e passed (b, s', run) = (b, s', rw passed run)

  pub go_pure : {A : Type 0} (a : A) (s : World) → Succeeds (pure a) s
  unfolding pure
  go_pure a s = (a, s, refl)

  -- A test that is known to fail.
  pub go_else :
      {A : Type 0} (s : World) (c : Bool) (m n : Action A)
      → c ≡ false
      → Succeeds n s
      → Succeeds (if c then m else n) s
  go_else s false m n e run = run
  go_else s true m n e run = absurd (cc e)

  pub go_commit :
      IsReliable E → (w : Db) (message : String) (s : World) → Succeeds (commit_db w message) s
  unfolding commit_db
  go_commit reliable w message s =
      (tt, record s { db = w; tick = s.tick + 1 }, rw (reliable.allowed _ s.tick) refl)

  pub nothing_replaced : (o : Option Bytes) → o ≡ none → is_some o ≡ false
  nothing_replaced o e = rw e refl

  -- Where no call of the database fails, `make_directory` succeeds if the target's parents lead to
  -- a folder that has no entry under the trimmed last name.
  pub make_directory-Succeeds :
      (reliable : IsReliable E) (req : MakeDirectoryArg) (s : World) (target : FileId)
      (parents : List Text) (name : Text) (parent_id : ℕ)
      → req.target ≡ some target
      → pop target.path ≡ some (parents, name)
      → Resolves raw_key s.db.fs root_fsid parents parent_id
      → E.tables.find s.db.fs (make_key parent_id (trim name)) ≡ none
      → Succeeds (make_directory req) s
  unfolding make_directory descend_raw
  make_directory-Succeeds reliable req s target parents name parent_id e1 e2 found free =
      go_require _ _ req.target _ target e1 (
        go_require _ _ (pop target.path) _ (parents, name) e2
          (go_call _ _ reliable _ _ (
            go_call _ _ reliable _ _ (
              go_gets _ _ _ (
                go_lift _ _ _ parent_id (Resolves-walk raw_key _ s.db.fs reliable.readable found) (
                  go_call _ _ reliable _ _ (
                    go_call _ _ reliable _ _ (
                      go_require _ _ _ _ none
                        (get-eq-find reliable.readable s.db.fs _ ∙ ap some free)
                        (go_lift _ _ _ tt refl (
                          go_call _ _ reliable _ _ (
                            go_some _ _ _ _ (reliable.seq_reads _ _) λ last_id e3.
                              go_some _ _ _ _ (reliable.inserts _ _ _) λ inserted e4.
                                go_refuse _ _ _ _
                                  (nothing_replaced _ (E.tables.insert_old _ _ _ e4 ∙ free))
                                  (go_commit reliable _ _ _))))))))))))

  move_record-Succeeds :
      (reliable : IsReliable E) (src dest : Bytes) (name : Text)
      (version : Option RequestedFileVersion) (w : Db) (s : World) (bytes : Bytes)
      (file : FsRecordValue)
      → E.tables.find w.fs src ≡ some bytes
      → fs_record_from_bytes bytes ≡ ok file
      → is_other_version version file.latest_version ≡ false
      → (if bytes_eq src dest then none else E.tables.find w.fs dest) ≡ none
      → Succeeds (move_record src dest name version w) s
  unfolding move_record
  move_record-Succeeds reliable src dest name version w s bytes file there read latest free =
      go_some _ _ _ _ (reliable.removes _ _) λ removed e1.
        go_require _ _ _ _ bytes (E.tables.remove_old _ _ e1 ∙ there) (
          go_lift _ _ _ file read (
            go_refuse _ _ _ _ latest (
              go_some _ _ _ _ (reliable.inserts _ _ _) λ inserted e2.
                go_refuse _ _ _ _
                  (nothing_replaced _
                    (E.tables.insert_old _ _ _ e2 ∙ E.tables.find-remove _ _ e1 dest ∙ free))
                  (go_commit reliable _ _ _))))

  -- Where no call of the database fails, `move` succeeds if both directories lead to folders, the
  -- source is stored with the asked version as its latest, and the destination is free or is the
  -- source itself.
  pub move-Succeeds :
      (reliable : IsReliable E) (req : MoveArg) (s : World) (target : RequestedFileId)
      (src_dir dest_dir : List Text) (src_name dest_name : Text) (src_id dest_id : ℕ)
      (bytes : Bytes) (file : FsRecordValue)
      → req.target ≡ some target
      → pop target.path ≡ some (src_dir, src_name)
      → pop req.destination ≡ some (dest_dir, dest_name)
      → Resolves make_key s.db.fs root_fsid src_dir src_id
      → Resolves make_key s.db.fs root_fsid dest_dir dest_id
      → E.tables.find s.db.fs (make_key src_id src_name) ≡ some bytes
      → fs_record_from_bytes bytes ≡ ok file
      → is_other_version target.version file.latest_version ≡ false
      → (if bytes_eq (make_key src_id src_name) (make_key dest_id dest_name)
          then none
          else E.tables.find s.db.fs (make_key dest_id dest_name))
        ≡ none
      → Succeeds (move req) s
  unfolding move descend_path
  move-Succeeds reliable req s target src_dir dest_dir src_name dest_name src_id dest_id bytes file
        e1 e2 e3 src_found dest_found there read latest free =
      go_require _ _ req.target _ target e1 (
        go_require _ _ (pop req.destination) _ (dest_dir, dest_name) e3
          (go_require _ _ (pop target.path) _ (src_dir, src_name) e2
            (go_call _ _ reliable _ _ (
              go_call _ _ reliable _ _ (
                go_gets _ _ _ (
                  go_lift _ _ _ src_id
                    (Resolves-walk make_key _ s.db.fs reliable.readable src_found)
                    (go_lift _ _ _ dest_id
                      (Resolves-walk make_key _ s.db.fs reliable.readable dest_found)
                      (move_record-Succeeds reliable _ _ dest_name target.version s.db _ bytes file
                        there read latest free))))))))
