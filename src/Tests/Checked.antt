-- ===== src/Tests/Checked.antt =====
-- A build with overflow checks, as `cargo run` makes it, and a download whose offset and length add
-- up to 2 ^ 64.
use yeetbox.Common.{some, ◌-◌, refl, ◌≡◌, ◌^◌, ◌+◌, ◌≤◌, ◌↔◌, true, none, [], ◌∷◌, ◌++◌, arith}
use yeetbox.Status.{panicked}
use yeetbox.Env.{Env}
use yeetbox.Env.Sample.{sample_env}
use yeetbox.Words.{to_le_bytes}
use yeetbox.Records.{bytes_of_version, read_version, version_value_from_bytes}
use yeetbox.Storage.State.{World, codes, push}
use yeetbox.Storage.Request.{DownloadArg}
use yeetbox.Storage.Download.{known_size, is_beyond_end, read_version_blob}
use yeetbox.Storage.Safety.Overflow.{read_version_blob-panicked_iff}
use yeetbox.Tests.{b_version, b_world}

abbrev checked_env : Env
checked_env = record sample_env { overflow_checks = true }

abbrev checked_world : World ⦃E = checked_env⦄
checked_world = record {
  blobs_path = b_world.blobs_path;
  db = record { fs = b_world.db.fs; seq = b_world.db.seq; ver = b_world.db.ver };
  disk = b_world.disk;
  tick = b_world.tick;
}

abbrev to_the_end : DownloadArg
to_the_end = record {
  target = some (record { path = codes "b" ∷ []; version = none });
  offset = 1;
  length = 2 ^ 64 - 1;
}

read_version_blob-panicked_iff_example :
    ((read_version_blob ⦃E = checked_env⦄ to_the_end
        (codes "/blobs")
        (bytes_of_version b_version ++ codes "/blobs/1.blob")
        checked_world).0
      ≡ panicked)
    ↔ ((true ≡ true) × (known_size b_version ≡ true) × (2 ^ 64 ≤ 1 + (2 ^ 64 - 1)))
unfolding is_beyond_end bytes_of_version to_le_bytes read_version version_value_from_bytes push
read_version_blob-panicked_iff_example =
    read_version_blob-panicked_iff ⦃E = checked_env⦄ to_the_end (codes "/blobs")
      (bytes_of_version b_version ++ codes "/blobs/1.blob") b_version checked_world (omega arith)
      (omega arith) refl refl refl refl
