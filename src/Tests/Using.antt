-- ===== src/Tests/Using.antt =====
-- What is there is read, moved, copied and deleted.
use yeetbox.Common.{
  ◌<◌, Bool, if◌then◌else◌, length, arith, some, none, Bytes, ◌++◌, refl, ◌≡◌, true, false, [], ◌∷◌,
}
use yeetbox.Status.{ok}
use yeetbox.Env.Sample.{sample_env}
use yeetbox.Words.{to_le_bytes, from_le_bytes, to_be_bytes, from_be_bytes, read_field}
use yeetbox.Records.{
  size_of_version, fs_record_from_bytes, read_record, version_value_from_bytes, read_version,
  bytes_of_record, bytes_of_version, bytes_of_version_key, is_readable_obj_type,
}
use yeetbox.Storage.State.{
  codes, World, new_storage, ◌>>=◌, call, commit_db, gets, lift, pure, now, new_ulid, change_files,
  write_files, read_files, push,
}
use yeetbox.Storage.Path.{descend_path, descend_raw, walk, enter, make_key, child_id}
use yeetbox.Storage.Sequence.{get_next_id}
use yeetbox.Storage.MakeDirectory.{make_directory}
use yeetbox.Storage.Upload.{blob_path_of}
use yeetbox.Storage.Request.{DownloadResult}
use yeetbox.Storage.Append.{append, append_version, new_size}
use yeetbox.Storage.Append.Effect.{Appended, append_effect}
use yeetbox.Storage.Download.{download, read_version_blob, is_beyond_end, alloc_size}
use yeetbox.Storage.Download.Effect.{Downloaded, download_effect}
use yeetbox.Storage.Delete.{delete, delete_record, delete_versions, delete_version, remove_blob}
use yeetbox.Storage.Delete.Effect.{Deleted, delete_effect}
use yeetbox.Storage.Move.{move, move_record}
use yeetbox.Storage.Move.Effect.{Moved, move_effect}
use yeetbox.Storage.Copy.{copy, copy_blob, copy_record}
use yeetbox.Storage.Copy.Effect.{Copied, copy_effect}
use yeetbox.Storage.Path.{descend_nfkc}
use yeetbox.Storage.Listing.{list, list_entries, list_entry}
use yeetbox.Storage.Listing.Effect.{Listed, shown, list_effect}
use yeetbox.Storage.Delete.Gone.{delete-no_download}
use yeetbox.Tests.{
  list_root, b_version, b_entry, download_b, append_b, delete_b, move_a, copy_b, b_world,
}
use yeetbox.Tests.Making.{after_mkdir}
use yeetbox.Storage.Path.{walk}
use yeetbox.Storage.Path.{descend_path}
use yeetbox.Storage.State.{commit_db}
use yeetbox.Storage.State.{new_storage}
use yeetbox.Text.{trim}
use yeetbox.Storage.Path.{descend_raw}
use yeetbox.Storage.State.{◌>>=◌}
use yeetbox.Records.{bytes_of_record}
use yeetbox.Storage.MakeDirectory.{make_directory}
use yeetbox.Storage.Move.{move_record}
use yeetbox.Storage.State.{call}
use yeetbox.Storage.Path.{make_key}

abbrev after_download : World
after_download = (download download_b b_world).1

abbrev part_of_b : DownloadResult
part_of_b = record { contents = 8 ∷ 9 ∷ []; more = true }

download_ok : download download_b b_world ≡ (ok part_of_b, after_download)
unfolding download read_version_blob is_beyond_end alloc_size ◌>>=◌ call commit_db gets lift pure
    now new_ulid change_files write_files read_files descend_path walk enter make_key child_id
    fs_record_from_bytes read_record version_value_from_bytes read_version bytes_of_record
    bytes_of_version bytes_of_version_key to_le_bytes from_le_bytes to_be_bytes from_be_bytes
    read_field push is_readable_obj_type
download_ok = refl

download_effect_example : Downloaded download_b b_world part_of_b
download_effect_example = download_effect download_b b_world after_download part_of_b download_ok

abbrev after_append : World
after_append = (append append_b b_world).1

append_ok : append append_b b_world ≡ (ok tt, after_append)
unfolding append append_version new_size ◌>>=◌ call commit_db gets lift pure now new_ulid
    change_files write_files read_files descend_path walk enter make_key child_id
    fs_record_from_bytes read_record version_value_from_bytes read_version bytes_of_record
    bytes_of_version bytes_of_version_key to_le_bytes from_le_bytes to_be_bytes from_be_bytes
    read_field push is_readable_obj_type
append_ok = refl

append_effect_example : Appended append_b b_world after_append
append_effect_example = append_effect append_b b_world after_append append_ok

abbrev after_delete : World
after_delete = (delete delete_b b_world).1

delete_ok : delete delete_b b_world ≡ (ok false, after_delete)
unfolding delete delete_record delete_versions delete_version remove_blob ◌>>=◌ call commit_db gets
    lift pure now new_ulid change_files write_files read_files descend_path walk enter make_key
    child_id fs_record_from_bytes read_record version_value_from_bytes read_version bytes_of_record
    bytes_of_version bytes_of_version_key to_le_bytes from_le_bytes to_be_bytes from_be_bytes
    read_field push is_readable_obj_type
delete_ok = refl

delete_effect_example : Deleted delete_b b_world after_delete
delete_effect_example = delete_effect delete_b b_world after_delete false delete_ok

abbrev after_move : World
after_move = (move move_a after_mkdir).1

move_ok : move move_a after_mkdir ≡ (ok tt, after_move)
unfolding move ◌>>=◌ call descend_path walk move_record make_directory descend_raw new_storage
    commit_db make_key trim bytes_of_record
move_ok = refl

move_effect_example : Moved move_a after_mkdir after_move
move_effect_example = move_effect move_a after_mkdir after_move move_ok

abbrev after_copy : World
after_copy = (copy copy_b b_world).1

copy_ok : copy copy_b b_world ≡ (ok tt, after_copy)
unfolding copy copy_blob copy_record get_next_id blob_path_of ◌>>=◌ call commit_db gets lift pure
    now new_ulid change_files write_files read_files descend_path walk enter make_key child_id
    fs_record_from_bytes read_record version_value_from_bytes read_version bytes_of_record
    bytes_of_version bytes_of_version_key to_le_bytes from_le_bytes to_be_bytes from_be_bytes
    read_field push is_readable_obj_type
copy_ok = refl

copy_effect_example : Copied copy_b b_world after_copy
copy_effect_example = copy_effect copy_b b_world after_copy copy_ok

abbrev after_list : World
after_list = (list list_root b_world).1

list_ok : list list_root b_world ≡ (ok (shown b_entry ∷ []), after_list)
unfolding list ◌>>=◌ call gets lift pure descend_nfkc walk to_be_bytes list_entries list_entry
    make_key bytes_of_record
list_ok = refl

list_effect_example : Listed list_root b_world (shown b_entry ∷ [])
list_effect_example = list_effect list_root b_world after_list (shown b_entry ∷ []) list_ok

abbrev b_version_bytes : Bytes
b_version_bytes = bytes_of_version b_version ++ codes "/blobs/1.blob"

b_version_long : size_of_version < length b_version_bytes
unfolding bytes_of_version to_le_bytes
b_version_long = omega arith

only_value :
    (c : Bool) (v bytes : Bytes)
    → (if c then some v else none) ≡ some bytes
    → size_of_version < length v
    → size_of_version < length bytes
only_value true v bytes e long = ground arith
only_value false v bytes e long = absurd (cc e)

delete-no_download_example : ¬ download download_b after_delete ≡ (ok part_of_b, after_download)
delete-no_download_example =
    delete-no_download delete_b download_b b_world after_delete after_download
      (record { path = codes "b" ∷ []; version = none }) false part_of_b
      (λ j bytes e. only_value _ b_version_bytes bytes e b_version_long) refl refl delete_ok
