-- ===== src/Service.antt =====
-- `FileSystemServiceProvider` (yeetbox-server/src/service.rs): each method takes the lock of the
-- storage for its whole time, so requests run one after the other. It asks neither the
-- authenticator nor the authorizer. The arguments of methods that are not implemented are left out.
pub mod Runs
pub mod Panics
use yeetbox.Common.{Bool, List, [], ◌∷◌, Bytes}
use yeetbox.Status.{Result, panicked}
use yeetbox.Env.{Env}
use yeetbox.Storage.State.{World, Action, pure, lift, gets, ◌>>=◌}
use yeetbox.Storage.Request.{
  MakeDirectoryArg, UploadArg, AppendArg, DownloadArg, DownloadResult, DeleteArg, ListArg, MoveArg,
  CopyArg,
}
use yeetbox.Storage.Listing.{ListEntry}
use yeetbox.Storage.MakeDirectory
use yeetbox.Storage.Upload
use yeetbox.Storage.Append
use yeetbox.Storage.Download
use yeetbox.Storage.Delete
use yeetbox.Storage.Listing
use yeetbox.Storage.Move
use yeetbox.Storage.Copy

pub data Request : Type 0 where
  get_available_sasl_mechanisms authenticate watch_many patch list_incomplete_uploads : Request
  get_presigned_download get_presigned_upload watch_once get_attributes set_attributes : Request
  delete_many get_service_info get_audit_trail start_transaction commit_transaction : Request
  abort_transaction create_link unlink : Request
  make_directory : MakeDirectoryArg → Request
  upload : UploadArg → Request
  append : AppendArg → Request
  download : DownloadArg → Request
  delete : DeleteArg → Request
  list : ListArg → Request
  move : MoveArg → Request
  copy : CopyArg → Request

pub data Response : Type 0 where
  directory_made appended moved copied : Response
  uploaded : Bytes → Response
  downloaded : DownloadResult → Response
  deleted : Bool → Response
  listed : List ListEntry → Response

module _ ⦃E : Env⦄ where
  -- `unimplemented!()`
  unfoldable pub unimplemented : Action Response
  unimplemented = lift panicked

  unfoldable pub handle : Request → Action Response
  unfolding unimplemented
  handle (make_directory req) = MakeDirectory.make_directory req >>= λ _. pure directory_made
  handle (upload req) = Upload.upload req >>= λ token. pure (uploaded token)
  handle (append req) = Append.append req >>= λ _. pure appended
  handle (download req) = Download.download req >>= λ r. pure (downloaded r)
  handle (delete req) = Delete.delete req >>= λ shredded. pure (deleted shredded)
  handle (list req) = Listing.list req >>= λ entries. pure (listed entries)
  handle (move req) = Move.move req >>= λ _. pure moved
  handle (copy req) = Copy.copy req >>= λ _. pure copied
  handle get_available_sasl_mechanisms = unimplemented
  handle authenticate = unimplemented
  handle watch_many = unimplemented
  handle patch = unimplemented
  handle list_incomplete_uploads = unimplemented
  handle get_presigned_download = unimplemented
  handle get_presigned_upload = unimplemented
  handle watch_once = unimplemented
  handle get_attributes = unimplemented
  handle set_attributes = unimplemented
  handle delete_many = unimplemented
  handle get_service_info = unimplemented
  handle get_audit_trail = unimplemented
  handle start_transaction = unimplemented
  handle commit_transaction = unimplemented
  handle abort_transaction = unimplemented
  handle create_link = unimplemented
  handle unlink = unimplemented

  -- The requests in the order in which they get the lock.
  unfoldable pub serve : List Request → World → List (Result Response) × World
  serve [] s = ([], s)
  serve (r ∷ rs) s =
      let (answer, s') = handle r s in let (answers, s'') = serve rs s' in (answer ∷ answers, s'')
