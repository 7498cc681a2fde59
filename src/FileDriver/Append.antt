-- ===== src/FileDriver/Append.antt =====
-- `FileStorage::append` (yeetbox-server/src/storage/file.rs).
use yeetbox.Common.{Bool, not, Option, [], Bytes, if◌then◌else◌}
use yeetbox.Status.{invalid_argument, already_exists, refuse_if, or_refuse}
use yeetbox.Words.{add64}
use yeetbox.Storage.Request.{FileId, FileVersion, require_target}
use yeetbox.FileDriver.Paths.{FilePath, push, pop, target_path}
use yeetbox.FileDriver.Host.{Host}
use yeetbox.FileDriver.Numbers.{pad12}
use yeetbox.FileDriver.State.{Action, pure, lift, base_path, ◌>>=◌, ◌>>◌, change, write, look}
use yeetbox.FileDriver.Upload.{head_file_name, blobs_dir_name, blob_file_name, choose_ulid}

-- The message as the driver reads it; the protocol's `AppendArg` has no such token any more.
pub record AppendArg : Type 0 where
  pub target : Option FileId
  pub contents : Bytes
  pub finish : Bool
  pub continuation : Bytes

module _ ⦃H : Host⦄ where
  -- The path of the version after the one that was asked for.
  unfoldable pub appended_path : FilePath → FileVersion → FilePath
  unfolding push pop pad12
  appended_path blob_path version =
      let head_path = push (pop (pop blob_path)) head_file_name in
      push (push head_path (pad12 version.major)) (pad12 (add64 version.minor 1))

  -- The part of `append` after the last message.
  unfoldable pub finish_append : FilePath → FilePath → Action Bytes
  finish_append blob_path serial_path = do
    exists ← look (H.tree.try_exists serial_path)
    lift (refuse_if exists (already_exists "version already exists"))
    change (H.tree.rename blob_path serial_path)
    pure []

  -- The answer is the continuation token.
  unfoldable pub append : AppendArg → Action Bytes
  unfolding push target_path
  append req = do
    target ← lift (require_target req.target)
    version ← lift (or_refuse target.version (invalid_argument "version is required"))
    base ← base_path
    path ← lift (target_path base target.path)
    let blobs_path = push path blobs_dir_name
    ulid ← choose_ulid req.continuation
    let blob_path = push blobs_path (blob_file_name ulid)
    change (H.tree.open_append blob_path)
    write (H.tree.write blob_path req.contents)
    if not req.finish
        then pure (H.ulid_to_bytes ulid)
        else finish_append blob_path (appended_path blob_path version)
