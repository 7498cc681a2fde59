-- ===== src/Storage/Request.antt =====
-- The requests of remotefs.proto that the storage driver answers, as far as it reads them, and the
-- checks that its operations begin with.
use yeetbox.Common.{ℕ, Bool, Option, List, Bytes}
use yeetbox.Status.{Result, invalid_argument, or_refuse}
use yeetbox.Perms.{UnixPermissions}
use yeetbox.Storage.State.{pop}
use yeetbox.Storage.Path.{Text}

pub record FileVersion : Type 0 where
  pub major : ℕ
  pub minor : ℕ

pub record FileId : Type 0 where
  pub path : List Text
  pub version : Option FileVersion

pub record RequestedFileVersion : Type 0 where
  pub major : ℕ
  pub minor : Option ℕ

pub record RequestedFileId : Type 0 where
  pub path : List Text
  pub version : Option RequestedFileVersion

pub record MakeDirectoryArg : Type 0 where
  pub target : Option FileId
  pub uid : ℕ
  pub gid : ℕ
  pub perms : Option UnixPermissions

pub record UploadArg : Type 0 where
  pub target : Option FileId
  pub uid : ℕ
  pub gid : ℕ
  pub perms : Option UnixPermissions
  pub contents : Bytes
  pub next : Bool
  pub incomplete : Bool
  pub reserve : ℕ
  pub continuation : Bytes

pub record AppendArg : Type 0 where
  pub target : Option RequestedFileId
  pub contents : Bytes

pub record DownloadArg : Type 0 where
  pub target : Option RequestedFileId
  pub offset : ℕ
  pub length : ℕ

pub record DownloadResult : Type 0 where
  pub contents : Bytes
  pub more : Bool

pub record DeleteArg : Type 0 where
  pub target : Option RequestedFileId
  pub shred : Bool

-- The driver reads no field but the target.
pub record ListArg : Type 0 where
  pub target : Option RequestedFileId
  pub attrs : Bool
  pub limit : ℕ
  pub skip : ℕ
  pub folders : Bool
  pub thumbnails : Bool

pub record MoveArg : Type 0 where
  pub target : Option RequestedFileId
  pub destination : List Text
  pub next : Bool

pub record CopyArg : Type 0 where
  pub target : Option RequestedFileId
  pub destination : List Text
  pub next : Bool

-- `if req.target.is_none() { return Err(...); }` and `req.target.unwrap()`
abbrev pub require_target : {A : Type 0} → Option A → Result A
require_target t = or_refuse t (invalid_argument "target is required")

-- `if fullpath.len() == 0 { return Err(...); }` and `fullpath.pop().unwrap()`
abbrev pub require_name : List Text → Result (List Text × Text)
require_name path = or_refuse (pop path) (invalid_argument "target may not be empty")
