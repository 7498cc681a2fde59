-- ===== src/Tests/Progress.antt =====
-- The environment of the tests is reliable, so operations succeed in it.
use yeetbox.Common.{refl, none, [], ◌∷◌, ◌++◌}
use yeetbox.Env.{HasClock}
use yeetbox.Env.Sample.{sample_env}
use yeetbox.Words.{to_le_bytes, to_be_bytes}
use yeetbox.Records.{bytes_of_record, read_record, fs_record_from_bytes}
use yeetbox.Storage.State.{codes, new_storage}
use yeetbox.Storage.Path.{make_key}
use yeetbox.Storage.Path.Resolve.{Resolves}
use yeetbox.Storage.MakeDirectory.{make_directory}
use yeetbox.Storage.Upload.{upload}
use yeetbox.Storage.Move.{move}
use yeetbox.Storage.Progress.{IsReliable, Succeeds, make_directory-Succeeds, move-Succeeds}
use yeetbox.Storage.Progress.Uploading.{IsWritable, upload-Succeeds}
use yeetbox.Tests.{new_world, mkdir, upload_b, b_world, b_record, move_b}

pub sample-IsReliable : IsReliable sample_env
sample-IsReliable = record {
  allowed = λ c tick. refl;
  readable = record { reads = λ t k e. cc e };
  seq_reads = λ t k e. cc e;
  inserts = λ t k v e. cc e;
  seq_inserts = λ t k v e. cc e;
  removes = λ t k e. cc e;
}

pub sample-HasClock : HasClock sample_env
sample-HasClock = record { since_epoch = λ tick. (_, refl) }

sample-IsWritable : IsWritable sample_env
sample-IsWritable = record { opens = λ d p. (_, refl); writes = λ d p bs. (_, _, refl) }

make_directory-Succeeds_example : Succeeds (make_directory (mkdir (codes "a"))) new_world
unfolding new_storage
make_directory-Succeeds_example =
    make_directory-Succeeds sample-IsReliable (mkdir (codes "a")) new_world
      (record { path = codes "a" ∷ []; version = none }) [] (codes "a") 0 refl refl Resolves.here
      refl

upload-Succeeds_example : Succeeds (upload upload_b) new_world
unfolding new_storage
upload-Succeeds_example =
    upload-Succeeds sample-IsReliable sample-HasClock sample-IsWritable upload_b new_world
      (record { path = codes "b" ∷ []; version = none }) [] (codes "b") 0 refl refl refl refl
      Resolves.here refl

move-Succeeds_example : Succeeds (move move_b) b_world
unfolding make_key to_be_bytes bytes_of_record to_le_bytes fs_record_from_bytes read_record
move-Succeeds_example =
    move-Succeeds sample-IsReliable move_b b_world
      (record { path = codes "b" ∷ []; version = none }) [] [] (codes "b") (codes "c") 0 0
      (bytes_of_record b_record ++ codes "b") b_record refl refl refl Resolves.here Resolves.here
      refl refl refl refl
