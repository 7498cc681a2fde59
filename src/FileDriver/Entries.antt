-- ===== src/FileDriver/Entries.antt =====
-- The entries of `FileStorage::list` (yeetbox-server/src/storage/file.rs).
use yeetbox.Common.{
  ℕ, Bool, true, false, not, ◌||◌, Option, none, some, List, [], ◌∷◌, Bytes, bytes_eq,
  if◌then◌else◌,
}
use yeetbox.Common.Int.{ℤ, pos}
use yeetbox.Status.{Result, ok, err, io, panicked, ◌>>=◌}
use yeetbox.Env.{IoResult, done, failed}
use yeetbox.Authn.{from_utf8}
use yeetbox.Time64.{Timestamp}
use yeetbox.Timestamps.{system_time_to_grpc_timestamp}
use yeetbox.Perms.{UnixPermissions, perms_of_mode}
use yeetbox.FileDriver.Host.{Metadata, DirEntry}
use yeetbox.FileDriver.Upload.{head_file_name, blobs_dir_name}
use yeetbox.FileDriver.Download.{versions_dir_name}

-- `FsAttributes` of remotefs.proto, as far as the driver sets them; the type is only known for a
-- link.
pub record FsAttributes : Type 0 where
  pub is_symlink : Bool
  pub uid : ℕ
  pub gid : ℕ
  pub perms : UnixPermissions
  pub create_time : Option Timestamp
  pub modify_time : Option Timestamp
  pub access_time : Option Timestamp
  pub change_time : Timestamp
  pub size : ℕ
  pub dev : ℕ
  pub hardlinks : ℕ
  pub inode : ℕ
  pub block_size : ℕ
  pub block_count : ℕ

pub record ListEntry : Type 0 where
  pub relative_name : Bytes
  pub attrs : Option FsAttributes

-- `[HEAD_FILE_NAME, BLOBS_DIR_NAME, VERSIONS_DIR_NAME].contains(name)`
abbrev pub is_reserved : Bytes → Bool
is_reserved name =
    bytes_eq name head_file_name || bytes_eq name blobs_dir_name || bytes_eq name versions_dir_name

-- `t.ok().map(system_time_to_grpc_timestamp)`
unfoldable pub known_time : IoResult ℤ → Result (Option Timestamp)
unfolding system_time_to_grpc_timestamp
known_time (failed k) = ok none
known_time (done t) = system_time_to_grpc_timestamp t >>= λ stamp. ok (some stamp)

unfoldable pub attributes_of : Metadata → Result FsAttributes
unfolding known_time perms_of_mode
attributes_of m = do
  created ← known_time m.created
  modified ← known_time m.modified
  accessed ← known_time m.accessed
  ok (record {
    is_symlink = m.is_symlink;
    uid = m.uid;
    gid = m.gid;
    perms = perms_of_mode m.mode;
    create_time = created;
    modify_time = modified;
    access_time = accessed;
    change_time = record { seconds = m.ctime; nanos = pos 0 };
    size = m.len;
    dev = m.dev;
    hardlinks = m.nlink;
    inode = m.ino;
    block_size = m.blksize;
    block_count = m.blocks;
  })

-- `?` on a result of the file system.
abbrev pub from_io : {A : Type 0} → IoResult A → Result A
from_io (done a) = ok a
from_io (failed k) = err (io k)

-- The entry that is shown for one of the directory.
unfoldable pub shown : Bool → DirEntry → Result ListEntry
unfolding attributes_of
shown false e = ok (record { relative_name = e.file_name; attrs = none })
shown true e = do
  metadata ← from_io e.metadata
  attrs ← attributes_of metadata
  ok (record { relative_name = e.file_name; attrs = some attrs })

-- The loop over the entries, with how they end. A name that is not UTF-8 panics.
unfoldable pub list_entries : Bool → List DirEntry → IoResult (Unit {0}) → Result (List ListEntry)
unfolding shown from_utf8
list_entries attrs [] end = from_io end >>= λ _. ok []
list_entries attrs (e ∷ es) end =
    let rest = list_entries attrs es end in
    let kept = shown attrs e >>= λ entry. rest >>= λ entries. ok (entry ∷ entries) in
    if not (from_utf8 e.file_name) then panicked else if is_reserved e.file_name then rest else kept
