-- ===== src/FileDriver/MakeDirectory.antt =====
-- `FileStorage::make_directory` (yeetbox-server/src/storage/file.rs).
use yeetbox.Storage.Request.{MakeDirectoryArg, require_target}
use yeetbox.FileDriver.Paths.{target_path}
use yeetbox.FileDriver.Host.{Host}
use yeetbox.FileDriver.State.{Action, lift, base_path, ◌>>=◌, change}

module _ ⦃H : Host⦄ where
  unfoldable pub make_directory : MakeDirectoryArg → Action (Unit {0})
  unfolding target_path
  make_directory req = do
    target ← lift (require_target req.target)
    base ← base_path
    path ← lift (target_path base target.path)
    change (H.tree.create_dir_all path)
