-- ===== src/Tests.antt =====
-- Runs of the model at concrete inputs, in an environment in which no call fails.
mod Making
mod Using
mod Serving
mod Values
mod RoundTrip
mod Progress
mod Checked
mod Files
mod Tree
use yeetbox.Common.{Bool, true, false, Option, none, some, List, [], ◌∷◌, ◌++◌, Bytes}
use yeetbox.Env.Sample.{sample_env}
use yeetbox.Storage.State.{World, new_storage, codes}
use yeetbox.Records.{
  FsRecordValue, VersionRecordValue, default_record, obj_type_version_blob, bytes_of_record,
  bytes_of_version, bytes_of_version_key,
}
use yeetbox.Storage.Path.{make_key}
use yeetbox.Storage.Sequence.{fs_table_name}
use yeetbox.Storage.Request.{
  RequestedFileId, MakeDirectoryArg, UploadArg, AppendArg, DownloadArg, DeleteArg, ListArg, MoveArg,
  CopyArg,
}

abbrev pub new_world : World
new_world = new_storage []

abbrev pub requested : List Bytes → Option RequestedFileId
requested path = some (record { path = path; version = none })

abbrev pub mkdir : Bytes → MakeDirectoryArg
mkdir name = record {
  target = some (record { path = name ∷ []; version = none });
  uid = 0;
  gid = 0;
  perms = none;
}

abbrev pub upload_to : List Bytes → Bytes → Bool → UploadArg
upload_to path contents next = record {
  target = some (record { path = path; version = none });
  uid = 1;
  gid = 2;
  perms = none;
  contents = contents;
  next = next;
  incomplete = false;
  reserve = 0;
  continuation = [];
}

-- A file `b` of three bytes.
abbrev pub upload_b : UploadArg
upload_b = upload_to (codes "b" ∷ []) (7 ∷ 8 ∷ 9 ∷ []) false

abbrev pub download_b : DownloadArg
download_b = record { target = requested (codes "b" ∷ []); offset = 1; length = 5 }

abbrev pub append_b : AppendArg
append_b = record { target = requested (codes "b" ∷ []); contents = 10 ∷ [] }

abbrev pub delete_a : DeleteArg
delete_a = record { target = requested (codes "a" ∷ []); shred = false }

abbrev pub delete_b : DeleteArg
delete_b = record { target = requested (codes "b" ∷ []); shred = false }

abbrev pub list_root : ListArg
list_root = record {
  target = requested [];
  attrs = false;
  limit = 0;
  skip = 0;
  folders = false;
  thumbnails = false;
}

abbrev pub move_a : MoveArg
move_a = record { target = requested (codes "a" ∷ []); destination = codes "c" ∷ []; next = false }

abbrev pub move_b : MoveArg
move_b = record { target = requested (codes "b" ∷ []); destination = codes "c" ∷ []; next = false }

abbrev pub copy_b : CopyArg
copy_b = record { target = requested (codes "b" ∷ []); destination = codes "c" ∷ []; next = false }

-- A server whose root holds that file, with its one version, and no directory.
abbrev pub b_record : FsRecordValue
b_record = record default_record { id = 1; type = obj_type_version_blob; blob_ulid = 1000 }

abbrev pub b_version : VersionRecordValue
b_version = record {
  create_time = 5;
  access_time = 0;
  length = 3;
  uid = 1;
  gid = 2;
  flags = 0o755;
  storage_tier = 0;
  other = 0;
}

abbrev pub b_entry : Bytes × Bytes
b_entry = (make_key 0 (codes "b"), bytes_of_record b_record ++ codes "b")

abbrev pub b_world : World
b_world = record {
  blobs_path = codes "/blobs";
  db = record {
    fs = b_entry ∷ [];
    seq = (fs_table_name, 1) ∷ [];
    ver = some (
        (
          bytes_of_version_key (record { file_id = 1; version = 1 }),
          bytes_of_version b_version ++ codes "/blobs/1.blob",
        )
        ∷ []);
  };
  disk = (codes "/blobs/1.blob", 7 ∷ 8 ∷ 9 ∷ []) ∷ [];
  tick = 7;
}
