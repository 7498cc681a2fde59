-- ===== src/FileDriver/Requests.antt =====
-- `Storage for FileStorage` (yeetbox-server/src/storage/file.rs): all its methods. The arguments of
-- those that are not implemented are left out.
use yeetbox.Common.{Bool, List, Bytes}
use yeetbox.Status.{panicked}
use yeetbox.Storage.Request.{
  ListArg, MakeDirectoryArg, UploadArg, DownloadArg, DownloadResult, DeleteArg,
}
use yeetbox.FileDriver.Host.{Host}
use yeetbox.FileDriver.State.{Action, pure, lift, ◌>>=◌}
use yeetbox.FileDriver.MakeDirectory
use yeetbox.FileDriver.Upload
use yeetbox.FileDriver.Append
use yeetbox.FileDriver.Append.{AppendArg}
use yeetbox.FileDriver.Download
use yeetbox.FileDriver.Delete
use yeetbox.FileDriver.Entries.{ListEntry}
use yeetbox.FileDriver.Listing

pub data FileRequest : Type 0 where
  make_directory : MakeDirectoryArg → FileRequest
  upload : UploadArg → FileRequest
  append : AppendArg → FileRequest
  download : DownloadArg → FileRequest
  delete : DeleteArg → FileRequest
  list : ListArg → FileRequest
  watch_many patch move copy list_incomplete_uploads get_presigned_download : FileRequest
  get_presigned_upload watch_once get_attributes set_attributes delete_many : FileRequest
  get_service_info get_audit_trail start_transaction commit_transaction : FileRequest
  abort_transaction create_link unlink : FileRequest

pub data FileResponse : Type 0 where
  directory_made : FileResponse
  uploaded : Bytes → FileResponse
  appended : Bytes → FileResponse
  downloaded : DownloadResult → FileResponse
  deleted : Bool → FileResponse
  listed : List ListEntry → FileResponse

module _ ⦃H : Host⦄ where
  -- `unimplemented!()`
  unfoldable pub unimplemented : Action FileResponse
  unimplemented = lift panicked

  unfoldable pub answer : FileRequest → Action FileResponse
  unfolding unimplemented
  answer (make_directory req) = MakeDirectory.make_directory req >>= λ _. pure directory_made
  answer (upload req) = Upload.upload req >>= λ token. pure (uploaded token)
  answer (append req) = Append.append req >>= λ token. pure (appended token)
  answer (download req) = Download.download req >>= λ r. pure (downloaded r)
  answer (delete req) = Delete.delete req >>= λ shredded. pure (deleted shredded)
  answer (list req) = Listing.list req >>= λ entries. pure (listed entries)
  answer watch_many = unimplemented
  answer patch = unimplemented
  answer move = unimplemented
  answer copy = unimplemented
  answer list_incomplete_uploads = unimplemented
  answer get_presigned_download = unimplemented
  answer get_presigned_upload = unimplemented
  answer watch_once = unimplemented
  answer get_attributes = unimplemented
  answer set_attributes = unimplemented
  answer delete_many = unimplemented
  answer get_service_info = unimplemented
  answer get_audit_trail = unimplemented
  answer start_transaction = unimplemented
  answer commit_transaction = unimplemented
  answer abort_transaction = unimplemented
  answer create_link = unimplemented
  answer unlink = unimplemented
