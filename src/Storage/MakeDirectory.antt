-- ===== src/Storage/MakeDirectory.antt =====
-- `DatabaseStorage::make_directory` (yeetbox-server/src/storage/database.rs).
pub mod Effect
use yeetbox.Common.{ℕ, ◌++◌}
use yeetbox.Status.{invalid_argument, internal, refuse_if, or_refuse, is_some}
use yeetbox.Env.{Env, begin_read, begin_write, open_fs, open_seq}
use yeetbox.Words.{add64}
use yeetbox.Text.{trim}
use yeetbox.Records.{FsRecordValue, default_record, obj_type_folder, bytes_of_record}
use yeetbox.Storage.State.{Action, lift, gets, ◌>>=◌, ◌>>◌, call, commit_db}
use yeetbox.Storage.Path.{make_key, descend_raw}
use yeetbox.Storage.Sequence.{fs_table_name, or_zero}
use yeetbox.Storage.Request.{MakeDirectoryArg, require_target, require_name}

abbrev pub folder_record : ℕ → FsRecordValue
folder_record id = record default_record { id = id; type = obj_type_folder }

module _ ⦃E : Env⦄ where
  unfoldable pub make_directory : MakeDirectoryArg → Action (Unit {0})
  make_directory req = do
    target ← lift (require_target req.target)
    (parents, last_name) ← lift (require_name target.path)
    call begin_read "could not read from database"
    call open_fs "could not read from fs table"
    snapshot ← gets (λ s. s.db)
    let folder_name = trim last_name
    parent_id ← lift (descend_raw parents snapshot.fs)
    call begin_write "could not write to database"
    call open_fs "could not read from fs table"
    let key = make_key parent_id folder_name
    existing ← lift (
        or_refuse (E.tables.get snapshot.fs key)
          (internal "error trying to check if dir exists already"))
    lift (refuse_if (is_some existing) (invalid_argument "object already exists with that name"))
    call open_seq "could not read from seq table"
    last_id ← lift (
        or_refuse (E.sequences.get snapshot.seq fs_table_name)
          (internal "error trying to read seq key"))
    let next_id = add64 (or_zero last_id) 1
    let new_value = bytes_of_record (folder_record next_id) ++ folder_name
    (fs, replaced) ← lift (
        or_refuse (E.tables.insert snapshot.fs key new_value)
          (internal "could not write to fs table"))
    lift (refuse_if (is_some replaced) (internal "replaced existing folder"))
    commit_db (record snapshot { fs = fs }) "could not commit changes"
