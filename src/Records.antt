-- ===== src/Records.antt =====
-- The records of yeetbox-server/src/storage/database.rs and their bytes. The structs are
-- `#[repr(C)]` and `bytemuck::Pod`: `bytemuck::bytes_of` is the fields in order, each in the
-- little-endian order of the targets that the server is built for.
pub mod Codec
use yeetbox.Common.{
  ℕ, ◌^◌, ◌<◌, List, [], ◌∷◌, ◌++◌, Bool, ◌||◌, Option, none, some, Bytes, length, drop, leb, ltb,
  ◌==◌, if◌then◌else◌,
}
use yeetbox.Status.{Result, ok, err, panicked}
use yeetbox.Words.{to_le_bytes, read_field}
use yeetbox.Time64.{Time64, time64_unknown_time}

abbrev pub FileSystemId : Type 0
FileSystemId = ℕ

abbrev pub FsVersion : Type 0
FsVersion = ℕ

abbrev pub root_fsid : FileSystemId
root_fsid = 0

abbrev pub default_storage_tier : ℕ
default_storage_tier = 0

abbrev pub obj_type_normal_blob : ℕ
obj_type_normal_blob = 0

abbrev pub obj_type_version_blob : ℕ
obj_type_version_blob = 1

abbrev pub obj_type_append_blob : ℕ
obj_type_append_blob = 2

abbrev pub obj_type_block_blob : ℕ
obj_type_block_blob = 3

abbrev pub obj_type_folder : ℕ
obj_type_folder = 4

abbrev pub obj_type_symlink : ℕ
obj_type_symlink = 5

abbrev pub obj_type_fifo : ℕ
obj_type_fifo = 6

abbrev pub obj_type_socket : ℕ
obj_type_socket = 7

abbrev pub unknown_size : ℕ
unknown_size = 0xffff_ffff_ffff_ffff

pub record FsRecordValue : Type 0 where
  pub id : FileSystemId
  pub create_time : Time64
  pub modify_time : Time64
  pub access_time : Time64
  pub change_time : Time64
  pub delete_time : Time64
  pub type : ℕ
  pub other1 : ℕ
  pub other2 : ℕ
  pub other3 : ℕ
  pub latest_version : ℕ
  pub blob_ulid : ℕ

-- `Default for FsRecordValue`
abbrev pub default_record : FsRecordValue
default_record = record {
  id = 0;
  create_time = time64_unknown_time;
  modify_time = time64_unknown_time;
  access_time = time64_unknown_time;
  change_time = time64_unknown_time;
  delete_time = time64_unknown_time;
  type = obj_type_normal_blob;
  other1 = 0;
  other2 = 0;
  other3 = 0;
  latest_version = 1;
  blob_ulid = 0;
}

-- `ObjectType` of remotefs.proto.
pub data ObjectType : Type 0 where
  file folder symlink fifo socket : ObjectType

-- No constant is called OBJ_TYPE_FILE, so the first arm of the `match` binds a new variable of that
-- name: it takes every type, and the arms below it are never reached.
unfoldable pub obj_type : FsRecordValue → Option ObjectType
obj_type r = let obj_type_file = r.type in some file

unfoldable pub is_readable_obj_type : ℕ → Bool
is_readable_obj_type t =
    t == obj_type_normal_blob
    || t == obj_type_version_blob
    || t == obj_type_append_blob
    || t == obj_type_block_blob
    || t == obj_type_fifo
    || t == obj_type_socket

pub record VersionRecordKey : Type 0 where
  pub file_id : FileSystemId
  pub version : FsVersion

pub record VersionRecordValue : Type 0 where
  pub create_time : Time64
  pub access_time : Time64
  pub length : ℕ
  pub uid : ℕ
  pub gid : ℕ
  pub flags : ℕ
  pub storage_tier : ℕ
  pub other : ℕ

-- `mem::size_of` of the two record values: the fields leave no padding.
abbrev pub size_of_record : ℕ
size_of_record = 80

abbrev pub size_of_version : ℕ
size_of_version = 40

unfoldable pub bytes_of_record : FsRecordValue → Bytes
unfolding to_le_bytes
bytes_of_record r =
    to_le_bytes 8 r.id
    ++ (to_le_bytes 8 r.create_time
        ++ (to_le_bytes 8 r.modify_time
            ++ (to_le_bytes 8 r.access_time
                ++ (to_le_bytes 8 r.change_time
                    ++ (to_le_bytes 8 r.delete_time
                        ++ (to_le_bytes 1 r.type
                            ++ (to_le_bytes 1 r.other1
                                ++ (to_le_bytes 2 r.other2
                                    ++ (to_le_bytes 4 r.other3
                                        ++ (to_le_bytes 8 r.latest_version
                                            ++ to_le_bytes 16 r.blob_ulid))))))))))

-- `bytemuck::pod_read_unaligned` of the first 80 bytes.
unfoldable pub read_record : Bytes → FsRecordValue
unfolding read_field
read_record value = record {
  id = read_field 8 0 value;
  create_time = read_field 8 8 value;
  modify_time = read_field 8 16 value;
  access_time = read_field 8 24 value;
  change_time = read_field 8 32 value;
  delete_time = read_field 8 40 value;
  type = read_field 1 48 value;
  other1 = read_field 1 49 value;
  other2 = read_field 2 50 value;
  other3 = read_field 4 52 value;
  latest_version = read_field 8 56 value;
  blob_ulid = read_field 16 64 value;
}

-- The slice `value[0..80]` panics on a shorter value.
unfoldable pub fs_record_from_bytes : Bytes → Result FsRecordValue
unfolding read_record
fs_record_from_bytes value =
    if ltb (length value) size_of_record then panicked else ok (read_record value)

unfoldable pub bytes_of_version_key : VersionRecordKey → Bytes
unfolding to_le_bytes
bytes_of_version_key k = to_le_bytes 8 k.file_id ++ to_le_bytes 8 k.version

unfoldable pub bytes_of_version : VersionRecordValue → Bytes
unfolding to_le_bytes
bytes_of_version v =
    to_le_bytes 8 v.create_time
    ++ (to_le_bytes 8 v.access_time
        ++ (to_le_bytes 8 v.length
            ++ (to_le_bytes 4 v.uid
                ++ (to_le_bytes 4 v.gid
                    ++ (to_le_bytes 2 v.flags
                        ++ (to_le_bytes 2 v.storage_tier ++ to_le_bytes 4 v.other))))))

unfoldable pub read_version : Bytes → VersionRecordValue
unfolding read_field
read_version value = record {
  create_time = read_field 8 0 value;
  access_time = read_field 8 8 value;
  length = read_field 8 16 value;
  uid = read_field 4 24 value;
  gid = read_field 4 28 value;
  flags = read_field 2 32 value;
  storage_tier = read_field 2 34 value;
  other = read_field 4 36 value;
}

unfoldable pub version_value_from_bytes : Bytes → Result VersionRecordValue
unfolding read_version
version_value_from_bytes value =
    if ltb (length value) size_of_version then panicked else ok (read_version value)
