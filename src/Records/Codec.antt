-- ===== src/Records/Codec.antt =====
-- A record survives its bytes (yeetbox-server/src/storage/database.rs).
use yeetbox.Common.{
  ℕ, ◌^◌, ◌<◌, ◌≡◌, ◌≤◌, ◌∙◌, sym, refl, false, ◌++◌, Bytes, length, drop, arith, ltb, ap,
}
use yeetbox.Status.{ok}
use yeetbox.Words.{to_le_bytes, from_le_bytes, byte_bound, read_field}
use yeetbox.Words.RoundTrip.{from_le_bytes-to_le_bytes}
use yeetbox.Records.{
  FsRecordValue, VersionRecordKey, VersionRecordValue, bytes_of_record, fs_record_from_bytes,
  bytes_of_version_key, bytes_of_version, read_record, read_version, size_of_record,
  size_of_version, version_value_from_bytes,
}

-- Every field of the struct is in the range of its type.
pub record IsFsRecord (r : FsRecordValue) : Type 0 where
  pub id_range : r.id < 2 ^ 64
  pub create_range : r.create_time < 2 ^ 64
  pub modify_range : r.modify_time < 2 ^ 64
  pub access_range : r.access_time < 2 ^ 64
  pub change_range : r.change_time < 2 ^ 64
  pub delete_range : r.delete_time < 2 ^ 64
  pub type_range : r.type < 2 ^ 8
  pub other1_range : r.other1 < 2 ^ 8
  pub other2_range : r.other2 < 2 ^ 16
  pub other3_range : r.other3 < 2 ^ 32
  pub version_range : r.latest_version < 2 ^ 64
  pub ulid_range : r.blob_ulid < 2 ^ 128

-- Every field of the struct is in the range of its type.
pub record IsVersion (v : VersionRecordValue) : Type 0 where
  pub create_range : v.create_time < 2 ^ 64
  pub access_range : v.access_time < 2 ^ 64
  pub length_range : v.length < 2 ^ 64
  pub uid_range : v.uid < 2 ^ 32
  pub gid_range : v.gid < 2 ^ 32
  pub flags_range : v.flags < 2 ^ 16
  pub tier_range : v.storage_tier < 2 ^ 16
  pub other_range : v.other < 2 ^ 32

field : (k n : ℕ) → n < byte_bound k → from_le_bytes (to_le_bytes k n) ≡ n
field = from_le_bytes-to_le_bytes

not_short : (n m : ℕ) → n ≤ m → ltb m n ≡ false
not_short n m h = ground arith

read_record-bytes_of_record :
    (r : FsRecordValue) (name : Bytes) → IsFsRecord r → read_record (bytes_of_record r ++ name) ≡ r
unfolding read_record bytes_of_record byte_bound
read_record-bytes_of_record r name h = λ i. record {
  id = field 8 r.id h.id_range i;
  create_time = field 8 r.create_time h.create_range i;
  modify_time = field 8 r.modify_time h.modify_range i;
  access_time = field 8 r.access_time h.access_range i;
  change_time = field 8 r.change_time h.change_range i;
  delete_time = field 8 r.delete_time h.delete_range i;
  type = field 1 r.type h.type_range i;
  other1 = field 1 r.other1 h.other1_range i;
  other2 = field 2 r.other2 h.other2_range i;
  other3 = field 4 r.other3 h.other3_range i;
  latest_version = field 8 r.latest_version h.version_range i;
  blob_ulid = field 16 r.blob_ulid h.ulid_range i;
}

pub record_length : (r : FsRecordValue) (name : Bytes) → 80 ≤ length (bytes_of_record r ++ name)
unfolding bytes_of_record
record_length r name = omega arith

pub name_of_record :
    (r : FsRecordValue) (name : Bytes) → drop size_of_record (bytes_of_record r ++ name) ≡ name
unfolding bytes_of_record
name_of_record r name = refl

-- A record whose fields are in range of their types, stored with a name behind it, is read back as
-- it was, and the rest of the value is the name.
pub fs_record_from_bytes-bytes_of_record :
    (r : FsRecordValue) (name : Bytes)
    → IsFsRecord r
    → (fs_record_from_bytes (bytes_of_record r ++ name) ≡ ok r)
      × (drop size_of_record (bytes_of_record r ++ name) ≡ name)
fs_record_from_bytes-bytes_of_record r name h = (
  unfold fs_record_from_bytes in
      rw (not_short 80 _ (record_length r name)) (ap ok (read_record-bytes_of_record r name h)),
  name_of_record r name,
)

read_version-bytes_of_version :
    (v : VersionRecordValue) (path : Bytes)
    → IsVersion v
    → read_version (bytes_of_version v ++ path) ≡ v
unfolding read_version bytes_of_version byte_bound
read_version-bytes_of_version v path h = λ i. record {
  create_time = field 8 v.create_time h.create_range i;
  access_time = field 8 v.access_time h.access_range i;
  length = field 8 v.length h.length_range i;
  uid = field 4 v.uid h.uid_range i;
  gid = field 4 v.gid h.gid_range i;
  flags = field 2 v.flags h.flags_range i;
  storage_tier = field 2 v.storage_tier h.tier_range i;
  other = field 4 v.other h.other_range i;
}

pub version_length :
    (v : VersionRecordValue) (path : Bytes) → 40 ≤ length (bytes_of_version v ++ path)
unfolding bytes_of_version
version_length v path = omega arith

-- A version whose fields are in range of their types, stored with a path behind it, is read back as
-- it was, and the rest of the value is the path.
pub version_value_from_bytes-bytes_of_version :
    (v : VersionRecordValue) (path : Bytes)
    → IsVersion v
    → (version_value_from_bytes (bytes_of_version v ++ path) ≡ ok v)
      × (drop size_of_version (bytes_of_version v ++ path) ≡ path)
version_value_from_bytes-bytes_of_version v path h = (
  unfold version_value_from_bytes in
      rw (not_short 40 _ (version_length v path)) (ap ok (read_version-bytes_of_version v path h)),
  unfold bytes_of_version in refl,
)

-- The fields that a lookup uses, one by one.
pub read_record_id :
    (r : FsRecordValue) (name : Bytes)
    → r.id < 2 ^ 64
    → r.latest_version < 2 ^ 64
    → ((read_record (bytes_of_record r ++ name)).id ≡ r.id)
      × ((read_record (bytes_of_record r ++ name)).latest_version ≡ r.latest_version)
unfolding read_record bytes_of_record byte_bound
read_record_id r name h k = (field 8 r.id h, field 8 r.latest_version k)

pub read_record_type :
    (r : FsRecordValue) (name : Bytes)
    → r.type < 2 ^ 8
    → (read_record (bytes_of_record r ++ name)).type ≡ r.type
unfolding read_record bytes_of_record byte_bound
read_record_type r name h = field 1 r.type h

-- What is long enough is read.
pub stored_record :
    (r : FsRecordValue) (name : Bytes)
    → fs_record_from_bytes (bytes_of_record r ++ name)
      ≡ ok (read_record (bytes_of_record r ++ name))
unfolding fs_record_from_bytes
stored_record r name = rw (not_short 80 _ (record_length r name)) refl

pub stored_version :
    (v : VersionRecordValue) (path : Bytes)
    → version_value_from_bytes (bytes_of_version v ++ path)
      ≡ ok (read_version (bytes_of_version v ++ path))
unfolding version_value_from_bytes
stored_version v path = rw (not_short 40 _ (version_length v path)) refl

pub record_of_bytes :
    (bytes : Bytes) {r : FsRecordValue} → fs_record_from_bytes bytes ≡ ok r → r ≡ read_record bytes
unfolding fs_record_from_bytes
record_of_bytes bytes h = ground arith

pub path_of_version :
    (v : VersionRecordValue) (path : Bytes)
    → drop size_of_version (bytes_of_version v ++ path) ≡ path
unfolding bytes_of_version
path_of_version v path = refl

key_of_bytes : Bytes → VersionRecordKey
unfolding read_field
key_of_bytes bs = record { file_id = read_field 8 0 bs; version = read_field 8 8 bs }

key_of_bytes_lem :
    (k : VersionRecordKey)
    → k.file_id < 2 ^ 64
    → k.version < 2 ^ 64
    → key_of_bytes (bytes_of_version_key k) ≡ k
unfolding key_of_bytes bytes_of_version_key byte_bound
key_of_bytes_lem k f v =
    λ i. record { file_id = field 8 k.file_id f i; version = field 8 k.version v i }

-- Different versions, and versions of different files, have different keys.
pub bytes_of_version_key-injective :
    (a b : VersionRecordKey)
    → a.file_id < 2 ^ 64
    → a.version < 2 ^ 64
    → b.file_id < 2 ^ 64
    → b.version < 2 ^ 64
    → bytes_of_version_key a ≡ bytes_of_version_key b
    → a ≡ b
bytes_of_version_key-injective a b af av bf bv e =
    sym (key_of_bytes_lem a af av) ∙ ap key_of_bytes e ∙ key_of_bytes_lem b bf bv
