-- ===== src/Storage/Path.antt =====
-- Keys of the file system table, and the descent along a path, which each operation of
-- yeetbox-server/src/storage/database.rs makes in its own copy: the copies differ in how they
-- normalise a component, and in one message.
pub mod Keys
pub mod Resolve
use yeetbox.Common.{
  ℕ, Bool, not, Option, none, some, List, [], ◌∷◌, ◌++◌, Bytes, String, length, take, drop, ltb,
  ◌==◌,
}
use yeetbox.Status.{
  Status, invalid_argument, internal, Result, ok, err, panicked, ◌>>=◌, ◌>>◌, refuse_if, or_refuse,
}
use yeetbox.Env.{Env}
use yeetbox.Words.{add64, to_be_bytes, from_be_bytes}
use yeetbox.Records.{
  FileSystemId, root_fsid, size_of_record, obj_type_folder, read_record, FsRecordValue,
}

-- A `String`, by its UTF-8 bytes.
abbrev pub Text : Type 0
Text = Bytes

-- The id in the first eight bytes of a stored value. They are stored by `bytes_of` in
-- little-endian order and read here in big-endian order.
unfoldable pub child_id : Bytes → FileSystemId
unfolding from_be_bytes
child_id value = from_be_bytes (take 8 value)

module _ ⦃E : Env⦄ where
  unfoldable pub make_key : FileSystemId → Text → Bytes
  unfolding to_be_bytes
  make_key parent_id file_name = to_be_bytes 8 parent_id ++ E.nfkd file_name

  -- `[parent_id.to_be_bytes().to_vec(), pc.into_bytes()].concat()`
  unfoldable pub raw_key : FileSystemId → Text → Bytes
  unfolding to_be_bytes
  raw_key parent_id pc = to_be_bytes 8 parent_id ++ pc

  unfoldable pub nfkc_key : FileSystemId → Text → Bytes
  unfolding to_be_bytes
  nfkc_key parent_id pc = to_be_bytes 8 parent_id ++ E.nfkc pc

  -- One round of the loop over the components of a path.
  unfoldable pub enter :
      (FileSystemId → Text → Bytes)
      → String
      → FileSystemId
      → Text
      → E.tables.Table
      → Result FileSystemId
  unfolding child_id read_record
  enter key_of message parent_id pc fs = do
    maybe_value ←
        or_refuse (E.tables.get fs (key_of parent_id pc)) (internal "error trying to read fs key")
    value ← or_refuse maybe_value (invalid_argument "no such parent path")
    refuse_if (ltb (length value) size_of_record) (internal "corrupted fs record")
    refuse_if (not ((read_record value).type == obj_type_folder)) (invalid_argument message)
    ok (child_id value)

  unfoldable pub walk :
      (FileSystemId → Text → Bytes)
      → String
      → FileSystemId
      → List Text
      → E.tables.Table
      → Result FileSystemId
  walk key_of message parent_id [] fs = ok parent_id
  walk key_of message parent_id (pc ∷ path) fs =
      enter key_of message parent_id pc fs >>= λ id. walk key_of message id path fs

  unfoldable pub descend_path : List Text → E.tables.Table → Result FileSystemId
  descend_path = walk make_key "path contained a non-folder" root_fsid

  -- The loops of `make_directory` and `upload`, and that of `list`.
  unfoldable pub descend_raw : List Text → E.tables.Table → Result FileSystemId
  descend_raw = walk raw_key "cannot place under non-folder" root_fsid

  unfoldable pub descend_nfkc : List Text → E.tables.Table → Result FileSystemId
  descend_nfkc = walk nfkc_key "cannot list under non-folder" root_fsid
