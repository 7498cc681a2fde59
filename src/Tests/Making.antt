-- ===== src/Tests/Making.antt =====
-- Directories and files are made.
use yeetbox.Common.{refl, ◌≡◌, true, none, some, [], ◌∷◌, ◌++◌}
use yeetbox.Status.{ok}
use yeetbox.Env.Sample.{sample_env}
use yeetbox.Env.{assoc}
use yeetbox.Storage.State.{
  World, codes, ◌>>=◌, call, commit_db, new_storage, change_files, write_files, now, new_ulid,
}
use yeetbox.Storage.Path.{walk, descend_raw, make_key}
use yeetbox.Storage.Path.Resolve.{Resolves}
use yeetbox.Words.{to_be_bytes}
use yeetbox.Records.{bytes_of_record}
use yeetbox.Storage.Request.{UploadArg}
use yeetbox.Storage.MakeDirectory.{make_directory}
use yeetbox.Storage.MakeDirectory.Effect.{
  Made, make_directory_effect, SameRecord, make_directory-SameRecord,
}
use yeetbox.Storage.Upload.{
  upload, choose_ulid, write_blob, finish_upload, record_upload, previous_record, file_id_for,
  new_file_record, new_file_version, save_blob,
}
use yeetbox.Storage.Sequence.{get_next_id}
use yeetbox.Storage.Upload.Effect.{Uploaded, upload_effect, upload-no_new_version}
use yeetbox.Tests.{new_world, mkdir, upload_to, upload_b, b_world, b_record}
use yeetbox.Text.{trim}

abbrev pub after_mkdir : World
after_mkdir = (make_directory (mkdir (codes "a")) new_world).1

mkdir_ok : make_directory (mkdir (codes "a")) new_world ≡ (ok tt, after_mkdir)
unfolding make_directory new_storage ◌>>=◌ call commit_db descend_raw walk
mkdir_ok = refl

abbrev after_second : World
after_second = (make_directory (mkdir (codes "d")) after_mkdir).1

second_ok : make_directory (mkdir (codes "d")) after_mkdir ≡ (ok tt, after_second)
unfolding make_directory new_storage ◌>>=◌ call commit_db descend_raw walk make_key trim
second_ok = refl

make_directory_effect_example : Made (mkdir (codes "a")) new_world after_mkdir
make_directory_effect_example =
    make_directory_effect (mkdir (codes "a")) new_world after_mkdir mkdir_ok

make_directory-SameRecord_example : SameRecord after_second.db.fs
make_directory-SameRecord_example =
    make_directory-SameRecord (mkdir (codes "a")) (mkdir (codes "d")) new_world after_mkdir
      after_second mkdir_ok second_ok

abbrev after_upload : World
after_upload = (upload upload_b new_world).1

upload_ok : upload upload_b new_world ≡ (ok [], after_upload)
unfolding upload new_storage ◌>>=◌ call commit_db descend_raw walk choose_ulid write_blob
    finish_upload record_upload previous_record file_id_for new_file_record new_file_version
    save_blob get_next_id new_ulid change_files write_files now
upload_ok = refl

upload_effect_example : Uploaded upload_b new_world after_upload
upload_effect_example = upload_effect upload_b new_world after_upload [] refl upload_ok

-- A second upload to the same name, for the next version.
abbrev next_b : UploadArg
next_b = upload_to (codes "b" ∷ []) (1 ∷ []) true

abbrev after_next : World
after_next = (upload next_b b_world).1

b_found :
    assoc (make_key 0 (codes "b")) b_world.db.fs ≡ some (bytes_of_record b_record ++ codes "b")
unfolding make_key to_be_bytes
b_found = refl

upload-no_new_version_example : ¬ (upload next_b b_world ≡ (ok [], after_next))
unfolding trim
upload-no_new_version_example =
    upload-no_new_version next_b b_world after_next
      (record { path = codes "b" ∷ []; version = none }) [] (codes "b") 0
      (bytes_of_record b_record ++ codes "b") [] refl refl refl Resolves.here b_found
