-- ===== src/Storage/Safety/Values.antt =====
-- The values that the storage driver reads are long enough for its slices
-- (yeetbox-server/src/storage/database.rs).
use yeetbox.Common.{
  ℕ, ◌≤◌, ◌≡◌, ◌≢◌, sym, ◌∙◌, false, Option, some, Bytes, String, length, arith, ltb,
}
use yeetbox.Status.{panicked}
use yeetbox.Env.{Env}
use yeetbox.Records.{
  size_of_record, size_of_version, fs_record_from_bytes, version_value_from_bytes,
}
use yeetbox.Storage.State.{Db}
use yeetbox.Storage.Sequence.{get_next_id, version_table}
use yeetbox.Storage.WellFormed.{IsWellFormed, IsLong, version_table-some}
use yeetbox.Storage.Safety.{IsCalm, calm_rules}

not_short : (n m : ℕ) → n ≤ m → ltb m n ≡ false
not_short n m h = ground arith

pub fs_record_calm :
    (bytes : Bytes) → size_of_record ≤ length bytes → fs_record_from_bytes bytes ≢ panicked
unfolding fs_record_from_bytes
fs_record_calm bytes long = rw (not_short size_of_record (length bytes) long) (λ e. cc e)

pub version_value_calm :
    (bytes : Bytes) → size_of_version ≤ length bytes → version_value_from_bytes bytes ≢ panicked
unfolding version_value_from_bytes
version_value_calm bytes long = rw (not_short size_of_version (length bytes) long) (λ e. cc e)

module _ ⦃E : Env⦄ where
  -- A value that was found is long enough.
  pub fs_long :
      (w : Db) (key : Bytes) {maybe : Option Bytes} {bytes : Bytes}
      → IsWellFormed w
      → E.tables.get w.fs key ≡ some maybe
      → maybe ≡ some bytes
      → size_of_record ≤ length bytes
  fs_long w key {maybe} {bytes} wf e1 e2 =
      wf.fs_long.value_long key bytes (sym (E.tables.get-find w.fs key e1) ∙ e2)

  -- So is a value that was removed.
  pub removed_long :
      (w : Db) (key : Bytes) {t : E.tables.Table} {removed : Option Bytes} {bytes : Bytes}
      → IsWellFormed w
      → E.tables.remove w.fs key ≡ some (t, removed)
      → removed ≡ some bytes
      → size_of_record ≤ length bytes
  removed_long w key {t} {removed} {bytes} wf e1 e2 =
      wf.fs_long.value_long key bytes (sym (E.tables.remove_old w.fs key e1) ∙ e2)

  pub ver_long :
      (w : Db) (key : Bytes) {maybe : Option Bytes} {bytes : Bytes}
      → IsWellFormed w
      → E.tables.get (version_table w) key ≡ some maybe
      → maybe ≡ some bytes
      → size_of_version ≤ length bytes
  ver_long w key {maybe} {bytes} wf e1 e2 =
      wf.ver_long.value_long key bytes (sym (E.tables.get-find (version_table w) key e1) ∙ e2)

  pub versions_long :
      (w : Db) (versions : E.tables.Table) (key : Bytes) {maybe : Option Bytes} {bytes : Bytes}
      → IsWellFormed w
      → w.ver ≡ some versions
      → E.tables.get versions key ≡ some maybe
      → maybe ≡ some bytes
      → size_of_version ≤ length bytes
  versions_long w versions key {maybe} {bytes} wf same e1 e2 =
      IsLong.value_long (rw (version_table-some w versions same) at wf.ver_long) key bytes
        (sym (E.tables.get-find versions key e1) ∙ e2)

  pub get_next_id-IsCalm : (message : String) (w : Db) → IsCalm (get_next_id message w)
  unfolding get_next_id
  get_next_id-IsCalm message w = search calm_rules depth 20
