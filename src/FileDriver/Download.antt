-- ===== src/FileDriver/Download.antt =====
-- `FileStorage::download` (yeetbox-server/src/storage/file.rs).
use yeetbox.Common.{ℕ, ◌*◌, Option, none, some, Bytes, length, ltb, ◌==◌, min, if◌then◌else◌}
use yeetbox.Storage.State.{codes}
use yeetbox.Storage.Request.{DownloadArg, DownloadResult, RequestedFileVersion, require_target}
use yeetbox.FileDriver.Paths.{FilePath, push, target_path}
use yeetbox.FileDriver.Host.{Host}
use yeetbox.FileDriver.Numbers.{pad12}
use yeetbox.FileDriver.State.{Action, pure, lift, base_path, ◌>>=◌, ◌>>◌, look}
use yeetbox.FileDriver.Upload.{head_file_name}

abbrev pub latest_file_name : Bytes
latest_file_name = codes "_latest"

abbrev pub versions_dir_name : Bytes
versions_dir_name = codes "_vers"

abbrev pub max_read_size : ℕ
max_read_size = 8 * 1024 * 1024

unfoldable pub minor_file_name : Option ℕ → Bytes
unfolding pad12
minor_file_name none = latest_file_name
minor_file_name (some minor) = pad12 minor

-- The path of the version that is asked for.
unfoldable pub version_path : FilePath → Option RequestedFileVersion → FilePath
unfolding push pad12 minor_file_name
version_path path none = push path head_file_name
version_path path (some v) =
    push (push (push path versions_dir_name) (pad12 v.major)) (minor_file_name v.minor)

-- The size of the buffer.
unfoldable pub buffer_size : ℕ → ℕ
buffer_size asked = if ltb 0 asked then min asked max_read_size else max_read_size

module _ ⦃H : Host⦄ where
  unfoldable pub download : DownloadArg → Action DownloadResult
  unfolding target_path version_path buffer_size
  download req = do
    target ← lift (require_target req.target)
    base ← base_path
    path ← lift (target_path base target.path)
    let file_path = version_path path target.version
    look (H.tree.open_read file_path)
    let wanted = buffer_size req.length
    contents ← look (H.tree.read file_path req.offset wanted)
    pure (record { contents = contents; more = length contents == wanted })
