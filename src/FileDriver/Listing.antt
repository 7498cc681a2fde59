-- ===== src/FileDriver/Listing.antt =====
-- `FileStorage::list` (yeetbox-server/src/storage/file.rs).
pub mod Effect
use yeetbox.Common.{Bool, true, false, Option, List}
use yeetbox.Status.{not_found, refuse_if}
use yeetbox.Env.{IoResult, done, failed}
use yeetbox.Storage.Request.{ListArg, require_target}
use yeetbox.FileDriver.Paths.{push, pop, target_path}
use yeetbox.FileDriver.Host.{Host}
use yeetbox.FileDriver.State.{Action, lift, base_path, ◌>>=◌, ◌>>◌, look, try_look}
use yeetbox.FileDriver.Upload.{head_file_name}
use yeetbox.FileDriver.Entries.{ListEntry, list_entries}

abbrev pub succeeded : {A : Type 0} → IoResult A → Bool
succeeded (done a) = true
succeeded (failed k) = false

module _ ⦃H : Host⦄ where
  -- The path of a file has a head below it; whether there is one is asked first.
  unfoldable pub list : ListArg → Action (List ListEntry)
  unfolding push pop target_path list_entries
  list req = do
    target ← lift (require_target req.target)
    base ← base_path
    path ← lift (target_path base target.path)
    let head_path = push path head_file_name
    head ← try_look (H.tree.stat head_path)
    lift (refuse_if (succeeded head) (not_found "no such directory"))
    (entries, end) ← look (H.tree.read_dir (pop head_path))
    lift (list_entries req.attrs entries end)
