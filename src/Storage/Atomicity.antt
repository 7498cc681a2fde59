-- ===== src/Storage/Atomicity.antt =====
-- What the operations of yeetbox-server/src/storage/database.rs leave of the database when they
-- fail, and the operations that never change it.
use yeetbox.Common.{ℕ, String, Bool, true, false, Option, none, some, List, Bytes, zero, suc}
use yeetbox.Env.{Env}
use yeetbox.Records.{FsRecordValue, VersionRecordValue}
use yeetbox.Storage.Path.{Text}
use yeetbox.Storage.State.{Db}
use yeetbox.Storage.Keeps.{
  Leaves, IsAtomic, Leaves-bind, IsAtomic-Leaves, leaves_rules, atomic_rules,
}
use yeetbox.Storage.Request.{
  MakeDirectoryArg, UploadArg, AppendArg, DownloadArg, DeleteArg, ListArg, MoveArg, CopyArg,
  RequestedFileVersion,
}
use yeetbox.Storage.Sequence.{get_next_id}
use yeetbox.Storage.MakeDirectory.{make_directory}
use yeetbox.Storage.Upload.{
  choose_ulid, write_blob, file_id_for, new_file_record, new_file_version, save_blob, record_upload,
  finish_upload, upload,
}
use yeetbox.Storage.Append.{new_size, append_version, append}
use yeetbox.Storage.Download.{read_version_blob, download}
use yeetbox.Storage.Delete.{remove_blob, delete_version, delete_versions, delete_record, delete}
use yeetbox.Storage.Listing.{list}
use yeetbox.Storage.Move.{move_record, move}
use yeetbox.Storage.Copy.{copy_blob, copy_record, copy}

module _ ⦃E : Env⦄ where
  pub make_directory-IsAtomic : (req : MakeDirectoryArg) → IsAtomic (make_directory req)
  unfolding make_directory
  make_directory-IsAtomic req = search atomic_rules depth 40

  get_next_id-Leaves : (message : String) (w : Db) → Leaves (get_next_id message w)
  unfolding get_next_id
  get_next_id-Leaves message w = search leaves_rules depth 20

  pub choose_ulid-Leaves : (continuation : Bytes) → Leaves (choose_ulid continuation)
  unfolding choose_ulid
  choose_ulid-Leaves continuation = search leaves_rules

  pub write_blob-Leaves : (p contents : Bytes) → Leaves (write_blob p contents)
  unfolding write_blob
  write_blob-Leaves p contents = search leaves_rules depth 10

  file_id_for-Leaves : (previous : Option FsRecordValue) (w : Db) → Leaves (file_id_for previous w)
  unfolding file_id_for
  file_id_for-Leaves none w = get_next_id-Leaves _ w
  file_id_for-Leaves (some r) w = search leaves_rules

  new_file_record-Leaves :
      (previous : Option FsRecordValue) (id ulid : ℕ) → Leaves (new_file_record previous id ulid)
  unfolding new_file_record
  new_file_record-Leaves previous id ulid = search leaves_rules depth 10

  new_file_version-Leaves : (req : UploadArg) → Leaves (new_file_version req)
  unfolding new_file_version
  new_file_version-Leaves req = search leaves_rules

  save_blob-Leaves : (single : Bool) (base p : Bytes) → Leaves (save_blob single base p)
  unfolding save_blob
  save_blob-Leaves true base p = search leaves_rules
  save_blob-Leaves false base p = search leaves_rules depth 10

  ruleset upload_rules = (
    atomic_rules, choose_ulid-Leaves, write_blob-Leaves, file_id_for-Leaves, new_file_record-Leaves,
    new_file_version-Leaves, save_blob-Leaves,
  )

  record_upload-IsAtomic :
      (req : UploadArg) (ulid : ℕ) (base p : Bytes) (parent : ℕ) (name : Bytes) (w : Db)
      → IsAtomic (record_upload req ulid base p parent name w)
  unfolding record_upload
  record_upload-IsAtomic req ulid base p parent name w = search upload_rules depth 40

  finish_upload-IsAtomic :
      (req : UploadArg) (ulid : ℕ) (base p : Bytes) (parents : List Bytes) (name : Bytes)
      → IsAtomic (finish_upload req ulid base p parents name)
  unfolding finish_upload
  finish_upload-IsAtomic req ulid base p parents name =
      search (upload_rules, record_upload-IsAtomic) depth 20

  pub upload-IsAtomic : (req : UploadArg) → IsAtomic (upload req)
  unfolding upload
  upload-IsAtomic req = search (upload_rules, finish_upload-IsAtomic, IsAtomic-Leaves) depth 20

  new_size-Leaves : (p : Bytes) (v : VersionRecordValue) (n : ℕ) → Leaves (new_size p v n)
  unfolding new_size
  new_size-Leaves p v n = search leaves_rules

  append_version-Leaves :
      (contents : Bytes) (file : FsRecordValue) (base : Bytes) (w : Db)
      → Leaves (append_version contents file base w)
  unfolding append_version
  append_version-Leaves contents file base w = search (leaves_rules, new_size-Leaves) depth 30

  -- No `append`, successful or not, changes the database.
  pub append-Leaves : (req : AppendArg) → Leaves (append req)
  unfolding append
  append-Leaves req = search (leaves_rules, append_version-Leaves) depth 40

  read_version_blob-Leaves :
      (req : DownloadArg) (base bytes : Bytes) → Leaves (read_version_blob req base bytes)
  unfolding read_version_blob
  read_version_blob-Leaves req base bytes = search leaves_rules depth 20

  pub download-Leaves : (req : DownloadArg) → Leaves (download req)
  unfolding download
  download-Leaves req = search (leaves_rules, read_version_blob-Leaves) depth 40

  pub list-Leaves : (req : ListArg) → Leaves (list req)
  unfolding list
  list-Leaves req = search leaves_rules depth 20

  remove_blob-Leaves : (base : Bytes) (d : Option Bytes) → Leaves (remove_blob base d)
  unfolding remove_blob
  remove_blob-Leaves base none = search leaves_rules
  remove_blob-Leaves base (some d) = search leaves_rules

  delete_version-Leaves :
      (base : Bytes) (id version : ℕ) (v : E.tables.Table)
      → Leaves (delete_version base id version v)
  unfolding delete_version
  delete_version-Leaves base id version v = search (leaves_rules, remove_blob-Leaves) depth 10

  pub delete_versions-Leaves :
      (base : Bytes) (id version : ℕ) (v : E.tables.Table)
      → Leaves (delete_versions base id version v)
  unfolding delete_versions
  delete_versions-Leaves base id zero v = delete_version-Leaves base id zero v
  delete_versions-Leaves base id (suc version) v =
      Leaves-bind _ _ (delete_version-Leaves base id (suc version) v)
        (λ v'. delete_versions-Leaves base id version v')

  delete_record-IsAtomic :
      (file : FsRecordValue) (base : Bytes) (fs : E.tables.Table) (w : Db)
      → IsAtomic (delete_record file base fs w)
  unfolding delete_record
  delete_record-IsAtomic file base fs w =
      search (atomic_rules, IsAtomic-Leaves, delete_versions-Leaves) depth 10

  pub delete-IsAtomic : (req : DeleteArg) → IsAtomic (delete req)
  unfolding delete
  delete-IsAtomic req = search (atomic_rules, delete_record-IsAtomic) depth 40

  move_record-IsAtomic :
      (src dest : Bytes) (name : Text) (version : Option RequestedFileVersion) (w : Db)
      → IsAtomic (move_record src dest name version w)
  unfolding move_record
  move_record-IsAtomic src dest name version w = search atomic_rules depth 20

  pub move-IsAtomic : (req : MoveArg) → IsAtomic (move req)
  unfolding move
  move-IsAtomic req = search (atomic_rules, move_record-IsAtomic) depth 30

  pub copy_blob-Leaves :
      (file : FsRecordValue) (ulid : ℕ) (base : Bytes) → Leaves (copy_blob file ulid base)
  unfolding copy_blob
  copy_blob-Leaves file ulid base = search leaves_rules

  copy_record-IsAtomic :
      (dest : Bytes) (name : Text) (ulid : ℕ) (w : Db) → IsAtomic (copy_record dest name ulid w)
  unfolding copy_record
  copy_record-IsAtomic dest name ulid w = search (atomic_rules, get_next_id-Leaves) depth 20

  pub copy-IsAtomic : (req : CopyArg) → IsAtomic (copy req)
  unfolding copy
  copy-IsAtomic req = search (atomic_rules, copy_blob-Leaves, copy_record-IsAtomic) depth 40
