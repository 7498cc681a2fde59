-- ===== src/Storage/Move.antt =====
-- `DatabaseStorage::r#move` (yeetbox-server/src/storage/database.rs).
pub mod Effect
use yeetbox.Common.{Option, Bytes, ◌++◌}
use yeetbox.Status.{invalid_argument, internal, refuse_if, or_refuse, is_some}
use yeetbox.Env.{Env, begin_write, open_fs}
use yeetbox.Records.{bytes_of_record, fs_record_from_bytes}
use yeetbox.Storage.State.{Db, Action, lift, gets, ◌>>=◌, ◌>>◌, call, commit_db, pop}
use yeetbox.Storage.Path.{Text, make_key, descend_path}
use yeetbox.Storage.Append.{is_other_version}
use yeetbox.Storage.Request.{MoveArg, RequestedFileVersion, require_target, require_name}

module _ ⦃E : Env⦄ where
  -- The record leaves its key, and goes under the other with its new name behind it.
  unfoldable pub move_record :
      Bytes → Bytes → Text → Option RequestedFileVersion → Db → Action (Unit {0})
  unfolding fs_record_from_bytes
  move_record src_key dest_key dest_name version w = do
    (taken, removed) ←
        lift (or_refuse (E.tables.remove w.fs src_key) (internal "could not read from fs table"))
    bytes ← lift (or_refuse removed (invalid_argument "no such file"))
    file ← lift (fs_record_from_bytes bytes)
    lift (
        refuse_if (is_other_version version file.latest_version)
          (invalid_argument "not moving the latest version"))
    (fs, replaced) ← lift (
        or_refuse (E.tables.insert taken dest_key (bytes_of_record file ++ dest_name))
          (internal "could not write to fs table"))
    lift (refuse_if (is_some replaced) (invalid_argument "destination file already exists"))
    commit_db (record w { fs = fs }) "could not commit changes"

  unfoldable pub move : MoveArg → Action (Unit {0})
  move req = do
    target ← lift (require_target req.target)
    (dest_dir, dest_name) ←
        lift (or_refuse (pop req.destination) (invalid_argument "destination is required"))
    (dir_name, file_name) ← lift (require_name target.path)
    call begin_write "could not read from database"
    call open_fs "could not read from fs table"
    w ← gets (λ s. s.db)
    src_parent_id ← lift (descend_path dir_name w.fs)
    dest_parent_id ← lift (descend_path dest_dir w.fs)
    move_record (make_key src_parent_id file_name) (make_key dest_parent_id dest_name) dest_name
        target.version w
