-- ===== src/FileDriver/Delete.antt =====
-- `FileStorage::delete` (yeetbox-server/src/storage/file.rs). The answer says whether the file was
-- shredded.
pub mod Effect
use yeetbox.Common.{Bool, false}
use yeetbox.Storage.Request.{DeleteArg, require_target}
use yeetbox.FileDriver.Paths.{target_path}
use yeetbox.FileDriver.Host.{Host}
use yeetbox.FileDriver.State.{Action, pure, lift, base_path, ◌>>=◌, ◌>>◌, change}

module _ ⦃H : Host⦄ where
  unfoldable pub delete : DeleteArg → Action Bool
  unfolding target_path
  delete req = do
    target ← lift (require_target req.target)
    base ← base_path
    path ← lift (target_path base target.path)
    change (H.tree.remove_dir_all path)
    pure false
