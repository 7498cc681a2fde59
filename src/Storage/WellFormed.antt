-- ===== src/Storage/WellFormed.antt =====
-- Every stored value is long enough for the record that is read from it, and every key of the file
-- system table for the id of a parent: what the slices of database.rs rely on. A key is made of the
-- name that is stored behind the record
-- (yeetbox-server/src/storage/database.rs).
use yeetbox.Common.{
  Bool, ℕ, ap, subst, ◌≤◌, ◌≡◌, sym, ◌∙◌, false, Option, none, some, Bytes, bytes_eq, bytes_eq_iff,
  bytes_eq_refl, drop, length, length-append, ◌++◌, ◌==◌, ◌&&◌, not, if◌then◌else◌, arith,
  Bool-cases, inl, inr,
}
use yeetbox.Env.{Env}
use yeetbox.Records.{
  obj_type_version_blob, FsRecordValue, size_of_record, size_of_version, bytes_of_record,
}
use yeetbox.Records.Codec.{record_length, name_of_record, version_length}
use yeetbox.Words.{to_be_bytes}
use yeetbox.Words.RoundTrip.{length-to_be_bytes}
use yeetbox.Storage.State.{Db, new_storage}
use yeetbox.Storage.Path.{Text, make_key}
use yeetbox.Storage.Sequence.{version_table}
use yeetbox.Storage.Request.{RequestedFileVersion}
use yeetbox.Storage.Upload.Recorded.{Recorded}
use yeetbox.Storage.Delete.Effect.{Removed}
use yeetbox.Storage.Move.Effect.{Rekeyed}
use yeetbox.Storage.Copy.Effect.{Added}

module _ ⦃E : Env⦄ where
  -- Keys have `k` bytes at least, and values `n`.
  pub record IsLong (k n : ℕ) (t : E.tables.Table) : Type 0 where
    pub key_long : (j v : Bytes) → E.tables.find t j ≡ some v → k ≤ length j
    pub value_long : (j v : Bytes) → E.tables.find t j ≡ some v → n ≤ length v

  -- Every key is that of the name behind the record, under some parent.
  pub record IsNamed (t : E.tables.Table) : Type 0 where
    pub named :
        (j v : Bytes)
        → E.tables.find t j ≡ some v
        → (p : ℕ) × (j ≡ make_key p (drop size_of_record v))

  pub record IsWellFormed (w : Db) : Type 0 where
    pub fs_long : IsLong 8 size_of_record w.fs
    pub fs_named : IsNamed w.fs
    pub ver_long : IsLong 0 size_of_version (version_table w)

  IsLong-empty : (k n : ℕ) → IsLong k n E.tables.empty
  IsLong-empty k n = record {
    key_long = λ j v e. absurd (cc (e, E.tables.find-empty j));
    value_long = λ j v e. absurd (cc (e, E.tables.find-empty j));
  }

  IsLong-insert :
      (k n : ℕ) (t t' : E.tables.Table) (key value : Bytes)
      → IsLong k n t
      → k ≤ length key
      → n ≤ length value
      → ((j : Bytes)
          → E.tables.find t' j ≡ (if bytes_eq key j then some value else E.tables.find t j))
      → IsLong k n t'
  IsLong-insert k n t t' key value long key_ok value_ok same = record {
    key_long = λ j v e. elim (Bool-cases (bytes_eq key j)) [
      | inl here ↦ subst (λ x. k ≤ length x) ((bytes_eq_iff key j).0 here) key_ok
      | inr other ↦ long.key_long j v (sym (rw other at (same j)) ∙ e)
    ];
    value_long = λ j v e. elim (Bool-cases (bytes_eq key j)) [
      | inl here ↦ subst (λ x. n ≤ length x) (cc (rw here at (same j), e)) value_ok
      | inr other ↦ long.value_long j v (sym (rw other at (same j)) ∙ e)
    ];
  }

  -- A part of a table.
  IsLong-part :
      (k n : ℕ) (t t' : E.tables.Table)
      → IsLong k n t
      → ((j v : Bytes) → E.tables.find t' j ≡ some v → E.tables.find t j ≡ some v)
      → IsLong k n t'
  IsLong-part k n t t' long part = record {
    key_long = λ j v e. long.key_long j v (part j v e);
    value_long = λ j v e. long.value_long j v (part j v e);
  }

  IsNamed-insert :
      (t t' : E.tables.Table) (p : ℕ) (name : Text) (r : FsRecordValue)
      → IsNamed t
      → E.tables.find t' (make_key p name) ≡ some (bytes_of_record r ++ name)
      → ((j v : Bytes)
          → bytes_eq (make_key p name) j ≡ false
          → E.tables.find t' j ≡ some v
          → E.tables.find t j ≡ some v)
      → IsNamed t'
  IsNamed-insert t t' p name r before stored kept = record {
    named = λ j v e. elim (Bool-cases (bytes_eq (make_key p name) j)) [
      | inl here ↦
          let same_key : make_key p name ≡ j = (bytes_eq_iff _ j).0 here in
          let same_value : v ≡ bytes_of_record r ++ name =
            cc (stored, e, ap (λ k. E.tables.find t' k) same_key) in
          (
            p,
            sym same_key
                ∙ ap (make_key p)
                    (sym (ap (drop size_of_record) same_value ∙ name_of_record r name)),
          )
      | inr other ↦ before.named j v (kept j v other e)
    ];
  }

  make_key_long : (p : ℕ) (name : Text) → 8 ≤ length (make_key p name)
  unfolding make_key
  make_key_long p name =
      omega (arith, length-append (to_be_bytes 8 p) (E.nfkd name), length-to_be_bytes 8 p)

  version_table-eq : (w w' : Db) → w.ver ≡ w'.ver → version_table w ≡ version_table w'
  version_table-eq w w' e = ap (λ v. elim v [ none ↦ E.tables.empty | some t ↦ t ]) e

  pub version_table-some : (w : Db) (t : E.tables.Table) → w.ver ≡ some t → version_table w ≡ t
  version_table-some w t e = ap (λ v. elim v [ none ↦ E.tables.empty | some t' ↦ t' ]) e

  pub new_storage-IsWellFormed : (disk : E.files.Disk) → IsWellFormed (new_storage disk).db
  unfolding new_storage
  new_storage-IsWellFormed disk = record {
    fs_long = IsLong-empty 8 size_of_record;
    fs_named = record { named = λ j v e. absurd (cc (e, E.tables.find-empty j)) };
    ver_long = IsLong-empty 0 size_of_version;
  }

  module _ (w w' : Db) (wf : IsWellFormed w) where
    pub Made-IsWellFormed :
        (p : ℕ) (name : Text) (r : FsRecordValue)
        → ((j : Bytes)
            → E.tables.find w'.fs j ≡ (
                if bytes_eq (make_key p name) j
                then some (bytes_of_record r ++ name)
                else E.tables.find w.fs j))
        → w'.ver ≡ w.ver
        → IsWellFormed w'
    Made-IsWellFormed p name r stored same_ver = record {
      fs_long =
          IsLong-insert 8 _ w.fs w'.fs _ _ wf.fs_long (make_key_long p name) (record_length r name)
            stored;
      fs_named =
          IsNamed-insert w.fs w'.fs p name r wf.fs_named
            (rw (bytes_eq_refl (make_key p name)) at (stored (make_key p name)))
            (λ j v other e. sym (rw other at (stored j)) ∙ e);
      ver_long = rw (version_table-eq w' w same_ver) wf.ver_long;
    }

    pub Recorded-IsWellFormed :
        {single : Bool} {base path : Bytes} (p : ℕ) (name : Text) {ulid tick : ℕ}
        {d d' : E.files.Disk}
        → Recorded single base path (make_key p name) name ulid w w' tick d d'
        → IsWellFormed w'
    Recorded-IsWellFormed p name d = record {
      fs_long =
          IsLong-insert 8 _ w.fs w'.fs _ _ wf.fs_long (make_key_long p name)
            (record_length d.file name) d.stored;
      fs_named =
          IsNamed-insert w.fs w'.fs p name d.file wf.fs_named
            (rw (bytes_eq_refl (make_key p name)) at (d.stored (make_key p name)))
            (λ j v other e. sym (rw other at (d.stored j)) ∙ e);
      ver_long = rw (version_table-some w' d.versions d.has_versions) (
          IsLong-insert 0 _ (version_table w) d.versions _ _ wf.ver_long (omega arith)
            (version_length d.version d.blob_path) d.version_stored);
    }

    pub Rekeyed-IsWellFormed :
        (src : Bytes) (p : ℕ) (name : Text) (version : Option RequestedFileVersion)
        → Rekeyed src (make_key p name) name version w w'
        → IsWellFormed w'
    Rekeyed-IsWellFormed src p name version d = record {
      fs_long = record {
        key_long = λ j v e. elim (Bool-cases (bytes_eq (make_key p name) j)) [
          | inl here ↦ subst (λ x. 8 ≤ length x) ((bytes_eq_iff _ j).0 here) (make_key_long p name)
          | inr other ↦ wf.fs_long.key_long j v (kept j v other e)
        ];
        value_long = λ j v e. elim (Bool-cases (bytes_eq (make_key p name) j)) [
          | inl here ↦
              subst (λ x. size_of_record ≤ length x) (cc (rw here at (d.stored j), e))
                (record_length d.file name)
          | inr other ↦ wf.fs_long.value_long j v (kept j v other e)
        ];
      };
      fs_named =
          IsNamed-insert w.fs w'.fs p name d.file wf.fs_named
            (rw (bytes_eq_refl (make_key p name)) at (d.stored (make_key p name))) (kept);
      ver_long = rw (version_table-eq w' w d.same_ver) wf.ver_long;
    }
      where
        kept :
            (j v : Bytes)
            → bytes_eq (make_key p name) j ≡ false
            → E.tables.find w'.fs j ≡ some v
            → E.tables.find w.fs j ≡ some v
        kept j v other e = elim (Bool-cases (bytes_eq src j)) [
          | inl gone ↦ absurd (cc (rw (other, gone) at (d.stored j), e))
          | inr left ↦ sym (rw (other, left) at (d.stored j)) ∙ e
        ]

    pub Added-IsWellFormed :
        (p : ℕ) (name : Text) {ulid : ℕ} → Added (make_key p name) name ulid w w' → IsWellFormed w'
    Added-IsWellFormed p name d = Made-IsWellFormed p name d.copied d.stored d.same_ver

    pub Removed-IsWellFormed :
        (file : FsRecordValue) (base key : Bytes) {d d' : E.files.Disk}
        → Removed file base key w w' d d'
        → IsWellFormed w'
    Removed-IsWellFormed file base key d = record {
      fs_long = IsLong-part 8 _ w.fs w'.fs wf.fs_long kept;
      fs_named = record { named = λ j v e. wf.fs_named.named j v (kept j v e) };
      ver_long = rw (version_table-eq w' w d.same_ver) wf.ver_long;
    }
      where
        kept : (j v : Bytes) → E.tables.find w'.fs j ≡ some v → E.tables.find w.fs j ≡ some v
        kept j v e =
            elim (Bool-cases (not (file.type == obj_type_version_blob) && bytes_eq key j)) [
              | inl gone ↦ absurd (cc (rw gone at (d.fs_after j), e))
              | inr left ↦ sym (rw left at (d.fs_after j)) ∙ e
            ]
