-- ===== src/Tests/RoundTrip.antt =====
-- A file is uploaded in two messages and then downloaded.
use yeetbox.Common.{
  ◌≢◌, ℕ, Option-cases, inl, refl, Bool, arith, inr, ◌<◌, ◌^◌, ◌≡◌, true, false, none, List, [],
  ◌∷◌, ◌++◌, Bytes, take, drop, length,
}
use yeetbox.Status.{ok}
use yeetbox.Env.{WritesWhole, done}
use yeetbox.Env.Sample.{sample_env}
use yeetbox.Words.{to_le_bytes, from_le_bytes, to_be_bytes, from_be_bytes, read_field}
use yeetbox.Text.{trim}
use yeetbox.Records.{
  fs_record_from_bytes, read_record, version_value_from_bytes, read_version, bytes_of_record,
  bytes_of_version, bytes_of_version_key, is_readable_obj_type, default_record, obj_type_folder,
}
use yeetbox.Storage.State.{
  World, codes, new_storage, is_absolute, ◌>>=◌, call, commit_db, gets, lift, pure, now, new_ulid,
  change_files, write_files, read_files, push,
}
use yeetbox.Storage.Path.{descend_path, descend_raw, walk, enter, make_key, raw_key, child_id}
use yeetbox.Storage.Sequence.{get_next_id}
use yeetbox.Storage.Request.{UploadArg, DownloadArg, DownloadResult}
use yeetbox.Storage.Upload.{
  blob_path_of, upload, choose_ulid, write_blob, finish_upload, record_upload, previous_record,
  file_id_for, new_file_record, new_file_version, save_blob,
}
use yeetbox.Storage.Download.{download, read_version_blob, is_beyond_end, alloc_size}
use yeetbox.Storage.Upload.Messages.{start, message}
use yeetbox.Storage.RoundTrip.{download-upload}
use yeetbox.Storage.Progress.{Succeeds}
use yeetbox.Storage.Progress.Downloading.{IsOpen, download-Succeeds_uploaded}
use yeetbox.Tests.Progress.{sample-IsReliable}
use yeetbox.Tests.{new_world, upload_to, requested}

-- A server whose root holds a folder.
abbrev folder_world : World
folder_world = record new_world {
  db = record {
    fs =
        (
          make_key 0 (codes "a"),
          bytes_of_record (record default_record { id = 1; type = obj_type_folder }) ++ codes "a",
        )
        ∷ [];
    seq = [];
    ver = none;
  };
}

abbrev path_b : List Bytes
path_b = codes "a" ∷ codes "b" ∷ []

-- The first message and the last.
abbrev piece : Bytes → Bytes → Bool → UploadArg
piece contents continuation incomplete = record (upload_to path_b contents false) {
  incomplete = incomplete;
  continuation = continuation;
}

abbrev token : Bytes
token = to_be_bytes 16 1000

abbrev first_piece : UploadArg
first_piece = piece (7 ∷ 8 ∷ []) [] true

abbrev last_piece : UploadArg
last_piece = piece (9 ∷ []) token false

abbrev download_ab : DownloadArg
download_ab = record { target = requested path_b; offset = 1; length = 5 }

abbrev begun : World
begun = (upload first_piece folder_world).1

begun_ok : upload first_piece folder_world ≡ (ok token, begun)
unfolding upload new_storage ◌>>=◌ choose_ulid write_blob new_ulid change_files write_files
    to_be_bytes
begun_ok = refl

abbrev uploaded : World
uploaded = (upload last_piece begun).1

uploaded_ok : upload last_piece begun ≡ (ok [], uploaded)
unfolding upload new_storage ◌>>=◌ call commit_db descend_raw walk choose_ulid write_blob
    finish_upload record_upload previous_record file_id_for new_file_record new_file_version
    save_blob get_next_id blob_path_of new_ulid change_files write_files now enter raw_key make_key
    child_id read_record bytes_of_record to_le_bytes from_le_bytes to_be_bytes from_be_bytes
    read_field
uploaded_ok = refl

abbrev answer : DownloadResult
answer = record { contents = 8 ∷ 9 ∷ []; more = false }

abbrev downloaded : World
downloaded = (download download_ab uploaded).1

downloaded_ok : download download_ab uploaded ≡ (ok answer, downloaded)
unfolding ◌>>=◌ call commit_db gets lift pure now new_ulid change_files write_files read_files
    descend_path descend_raw walk enter make_key raw_key child_id fs_record_from_bytes read_record
    version_value_from_bytes read_version bytes_of_record bytes_of_version bytes_of_version_key
    to_le_bytes from_le_bytes to_be_bytes from_be_bytes read_field push is_readable_obj_type upload
    new_storage choose_ulid write_blob finish_upload record_upload previous_record file_id_for
    new_file_record new_file_version save_blob get_next_id blob_path_of trim download
    read_version_blob is_beyond_end alloc_size
downloaded_ok = refl

base_absolute : is_absolute folder_world.blobs_path ≡ true
unfolding new_storage is_absolute
base_absolute = refl

no_blob :
    sample_env.files.content folder_world.disk
      (blob_path_of folder_world.blobs_path (sample_env.new_ulid folder_world.tick))
    ≡ none
unfolding new_storage
no_blob = refl

tick_small : sample_env.new_ulid folder_world.tick < 2 ^ 128
unfolding new_storage
tick_small = omega arith

sample-WritesWhole : WritesWhole sample_env.files
sample-WritesWhole = record { whole = λ d p bs e. ground arith }

download-upload_example :
    answer.contents ≡ take (length answer.contents) (drop 1 ((7 ∷ 8 ∷ []) ++ (9 ∷ [])))
unfolding trim
download-upload_example =
    download-upload last_piece download_ab path_b path_b (codes "a" ∷ []) (codes "b") none
      folder_world begun uploaded downloaded (7 ∷ 8 ∷ []) token [] answer (inr sample-WritesWhole)
      tick_small no_blob base_absolute (message first_piece start refl refl begun_ok) refl refl refl
      refl refl refl (refl, tt) uploaded_ok downloaded_ok

sample_opens :
    (d : sample_env.files.Disk) (p : Bytes)
    → sample_env.files.content d p ≢ none
    → sample_env.files.open_read d p ≡ done tt
sample_opens d p there = elim (Option-cases (sample_env.files.content d p)) [
  | inl missing ↦ absurd (there missing)
  | inr (bs, found) ↦ ground arith
]

sample_reads :
    (d : sample_env.files.Disk) (p : Bytes) (offset n : ℕ)
    → sample_env.files.content d p ≢ none
    → (bs : Bytes) × (sample_env.files.read d p offset n ≡ done bs)
sample_reads d p offset n there = elim (Option-cases (sample_env.files.content d p)) [
  | inl missing ↦ absurd (there missing)
  | inr (bs, found) ↦ (take n (drop offset bs), ground arith)
]

sample-IsOpen : IsOpen sample_env
sample-IsOpen = record { opens = sample_opens; reads = sample_reads }

begun_absolute : is_absolute begun.blobs_path ≡ true
unfolding upload new_storage ◌>>=◌ choose_ulid write_blob new_ulid change_files write_files
    to_be_bytes is_absolute
begun_absolute = refl

download-Succeeds_uploaded_example :
    Succeeds (download (record { target = requested path_b; offset = 0; length = 5 })) uploaded
unfolding trim
download-Succeeds_uploaded_example =
    download-Succeeds_uploaded sample-IsReliable sample-IsOpen last_piece
      (record { target = requested path_b; offset = 0; length = 5 }) path_b path_b (codes "a" ∷ [])
      (codes "b") none begun uploaded [] refl refl refl refl refl refl (refl, tt) begun_absolute
      uploaded_ok
