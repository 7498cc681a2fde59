-- ===== src/Tests/Values.antt =====
-- Text, times, permissions, records and keys at concrete values.
use yeetbox.Common.{
  ◌⊎◌, ℕ, ◌^◌, ◌*◌, ◌+◌, ◌/◌, ◌%◌, ◌≤◌, ◌<◌, ◌≡◌, ◌↔◌, refl, true, false, [], ◌∷◌, ◌++◌, drop,
  arith,
}
use yeetbox.Common.Int.{pos}
use yeetbox.Status.{ok}
use yeetbox.Env.Sample.{sample_env}
use yeetbox.Text.{trim, decimal}
use yeetbox.Time64
use yeetbox.Time64.{Timestamp, into_timestamp, from_parts, from_timestamp}
use yeetbox.Time64.RoundTrip.{timestamp_survives_iff, into_timestamp-now, now_runs_back}
use yeetbox.Perms.{UnixPermissions, unix_perms_to_u16, perms_of_mode}
use yeetbox.Perms.RoundTrip.{perms_of_mode-unix_perms_to_u16}
use yeetbox.Records.{bytes_of_record, fs_record_from_bytes, size_of_record}
use yeetbox.Records.Codec.{IsFsRecord, fs_record_from_bytes-bytes_of_record}
use yeetbox.Storage.State.{codes}
use yeetbox.Storage.Path.{make_key, walk}
use yeetbox.Storage.Path.Keys.{make_key-injective}
use yeetbox.Storage.Path.Resolve.{Resolves, IsReadable, walk-Resolves, Resolves-walk}
use yeetbox.Storage.Download.{alloc_size, is_beyond_end, known_size, max_read_size}
use yeetbox.Storage.Download.Effect.{alloc_size_bounds}
use yeetbox.Storage.Path.{descend_raw}
use yeetbox.Storage.MakeDirectory.{make_directory}
use yeetbox.Storage.Path.{enter}
use yeetbox.Storage.State.{commit_db}
use yeetbox.Storage.State.{◌>>=◌}
use yeetbox.Storage.State.{call}
use yeetbox.Storage.State.{new_storage}
use yeetbox.Tests.{b_record, b_version}
use yeetbox.Tests.Making.{after_mkdir}

trim_test :
    trim (32 ∷ 0xe2 ∷ 0x80 ∷ 0x83 ∷ 97 ∷ 32 ∷ 98 ∷ 0xc2 ∷ 0xa0 ∷ 10 ∷ []) ≡ 97 ∷ 32 ∷ 98 ∷ []
unfolding trim
trim_test = refl

decimal_test : decimal 18446744073709551616 ≡ codes "18446744073709551616"
unfolding decimal
decimal_test = refl

timestamp_survives_iff_example :
    let t : Timestamp = record { seconds = pos 7; nanos = pos 999_999_999 } in
    (into_timestamp (from_timestamp t) ≡ t) ↔ (999_999_999 < 2 ^ 20)
timestamp_survives_iff_example = timestamp_survives_iff 7 999_999_999 (omega arith)

into_timestamp-now_example :
    (stamp : Time64.Time64) × (Time64.now (pos 1_700_000_000_123_456_789) ≡ ok stamp)
    × (into_timestamp stamp ≡ record {
      seconds = pos (1_700_000_000_123_456_789 / 1_000_000_000);
      nanos = pos (1_700_000_000_123_456_789 % 1_000_000);
    })
into_timestamp-now_example = into_timestamp-now 1_700_000_000_123_456_789 (omega arith)

now_runs_back_example :
    (later : Time64.Time64) × (earlier : Time64.Time64) × (Time64.now
        (pos (1_700_000_000 * 1_000_000_000 + 1_000_000))
      ≡ ok later)
    × (Time64.now (pos (1_700_000_000 * 1_000_000_000 + 999_999)) ≡ ok earlier)
    × (later < earlier)
now_runs_back_example = now_runs_back 1_700_000_000 (omega arith)

abbrev some_perms : UnixPermissions
some_perms = record {
  u_r = true;
  u_w = true;
  u_x = false;
  g_r = true;
  g_w = false;
  g_x = false;
  o_r = true;
  o_w = false;
  o_x = false;
  setuid = false;
  setgid = true;
  sticky = false;
}

perms_of_mode-unix_perms_to_u16_example :
    (unix_perms_to_u16 some_perms < 4096)
    × (perms_of_mode (unix_perms_to_u16 some_perms) ≡ some_perms)
perms_of_mode-unix_perms_to_u16_example = perms_of_mode-unix_perms_to_u16 some_perms

b_record_fits : IsFsRecord b_record
b_record_fits = record {
  id_range = omega arith;
  create_range = omega arith;
  modify_range = omega arith;
  access_range = omega arith;
  change_range = omega arith;
  delete_range = omega arith;
  type_range = omega arith;
  other1_range = omega arith;
  other2_range = omega arith;
  other3_range = omega arith;
  version_range = omega arith;
  ulid_range = omega arith;
}

fs_record_from_bytes-bytes_of_record_example :
    (fs_record_from_bytes (bytes_of_record b_record ++ codes "b") ≡ ok b_record)
    × (drop size_of_record (bytes_of_record b_record ++ codes "b") ≡ codes "b")
fs_record_from_bytes-bytes_of_record_example =
    fs_record_from_bytes-bytes_of_record b_record (codes "b") b_record_fits

abbrev parent_id : ℕ
parent_id = 5

make_key-injective_example :
    (parent_id ≡ parent_id) × (sample_env.nfkd (codes "b") ≡ sample_env.nfkd (codes "b"))
make_key-injective_example =
    make_key-injective parent_id parent_id (codes "b") (codes "b") (omega arith) (omega arith) refl

alloc_size_bounds_example :
    (alloc_size b_version 1 5 ≤ 5)
    × (alloc_size b_version 1 5 ≤ max_read_size)
    × ((known_size b_version ≡ false) ⊎ (1 + alloc_size b_version 1 5 ≤ b_version.length))
unfolding is_beyond_end
alloc_size_bounds_example = alloc_size_bounds b_version 1 5 (omega arith) (omega arith) refl

walk_a : walk make_key "no" 0 (codes "a" ∷ []) after_mkdir.db.fs ≡ ok 0x0100_0000_0000_0000
unfolding walk enter make_directory ◌>>=◌ call descend_raw new_storage commit_db make_key trim
    bytes_of_record
walk_a = refl

walk-Resolves_example : Resolves make_key after_mkdir.db.fs 0 (codes "a" ∷ []) 0x0100_0000_0000_0000
walk-Resolves_example = walk-Resolves make_key "no" after_mkdir.db.fs 0 (codes "a" ∷ []) walk_a

sample_reads : IsReadable sample_env
sample_reads = record { reads = λ t k e. cc e }

a_Resolves : Resolves make_key after_mkdir.db.fs 0 (codes "a" ∷ []) 0x0100_0000_0000_0000
a_Resolves = walk-Resolves make_key "no" after_mkdir.db.fs 0 (codes "a" ∷ []) walk_a

Resolves-walk_example :
    walk make_key "no" 0 (codes "a" ∷ []) after_mkdir.db.fs ≡ ok 0x0100_0000_0000_0000
Resolves-walk_example = Resolves-walk make_key "no" after_mkdir.db.fs sample_reads a_Resolves
