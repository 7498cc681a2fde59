-- ===== src/Storage/Delete/Gone.antt =====
-- What was deleted cannot be downloaded (yeetbox-server/src/storage/database.rs).
use yeetbox.Common.{
  ℕ, zero, suc, ◌<◌, ◌≡◌, sym, ap, ◌∙◌, Bool, true, not, ◌&&◌, none, some, List, Bytes, bytes_eq,
  bytes_eq_refl, length, drop, ◌==◌, arith, Bool-cases, inl, inr,
}
use yeetbox.Status.{ok}
use yeetbox.Env.{Env}
use yeetbox.Records.{
  FileSystemId, FsRecordValue, size_of_version, obj_type_version_blob, bytes_of_version_key,
}
use yeetbox.Storage.State.{World, Db, push, pop}
use yeetbox.Storage.Path.{Text, make_key}
use yeetbox.Storage.Path.Resolve.{Resolves, Resolves-unique}
use yeetbox.Storage.Sequence.{version_table}
use yeetbox.Storage.WellFormed.{version_table-some}
use yeetbox.Storage.Request.{DeleteArg, DownloadArg, DownloadResult, RequestedFileId}
use yeetbox.Storage.Delete.{delete}
use yeetbox.Storage.Delete.Blobs.{is_blob_up_to}
use yeetbox.Storage.Delete.Effect.{Removed, delete_effect}
use yeetbox.Storage.Download.{download}
use yeetbox.Storage.Download.Effect.{download_effect}

module _ ⦃E : Env⦄ where
  -- A path that resolves where entries are missing resolves where they are not.
  Resolves-more :
      (key_of : FileSystemId → Text → Bytes) (fs fs' : E.tables.Table)
      → ((j v : Bytes) → E.tables.find fs' j ≡ some v → E.tables.find fs j ≡ some v)
      → {p q : FileSystemId} {path : List Text} → Resolves key_of fs' p path q
      → Resolves key_of fs p path q
  Resolves-more key_of fs fs' back Resolves.here = Resolves.here
  Resolves-more key_of fs fs' back (Resolves.down v found long folder rest) =
      Resolves.down v (back _ _ found) long folder (Resolves-more key_of fs fs' back rest)

  is_blob_up_to-latest :
      (base : Bytes) (v : E.tables.Table) (id n : ℕ) (bytes : Bytes)
      → E.tables.find v (bytes_of_version_key (record { file_id = id; version = n })) ≡ some bytes
      → size_of_version < length bytes
      → is_blob_up_to base v id n (push base (drop size_of_version bytes)) ≡ true
  is_blob_up_to-latest base v id zero bytes found names =
      rw (found, bytes_eq_refl (push base (drop size_of_version bytes))) (ground arith)
  is_blob_up_to-latest base v id (suc n) bytes found names =
      rw (found, bytes_eq_refl (push base (drop size_of_version bytes))) (ground arith)

  -- What is stored after a deletion was stored before.
  Removed-before :
      (file : FsRecordValue) (base key : Bytes) (w w' : Db) (d d' : E.files.Disk)
      → Removed file base key w w' d d'
      → (j v : Bytes) → E.tables.find w'.fs j ≡ some v
      → E.tables.find w.fs j ≡ some v
  Removed-before file base key w w' d d' a j v e =
      elim (Bool-cases (not (file.type == obj_type_version_blob) && bytes_eq key j)) [
        | inl gone ↦ absurd (cc (rw gone at (a.fs_after j), e))
        | inr kept ↦ sym (rw kept at (a.fs_after j)) ∙ e
      ]

  -- A deleted object that still has its entry is a versioned blob.
  Removed-versioned :
      (file : FsRecordValue) (base key : Bytes) (w w' : Db) (d d' : E.files.Disk)
      → Removed file base key w w' d d'
      → {v : Bytes} → E.tables.find w'.fs key ≡ some v
      → (file.type == obj_type_version_blob) ≡ true
  Removed-versioned file base key w w' d d' a e =
      elim (Bool-cases (file.type == obj_type_version_blob)) [
        | inl versioned ↦ versioned
        | inr other ↦ absurd (cc (rw (other, bytes_eq_refl key) at (a.fs_after key), e))
      ]

  -- After a successful `delete`, whether it was committed or not, no download of the latest version
  -- of the same path succeeds, if the stored records of versions name their blobs.
  pub delete-no_download :
      (req : DeleteArg) (down : DownloadArg) (s t u : World) (target : RequestedFileId)
      (shredded : Bool) (r : DownloadResult)
      → ((j bytes : Bytes)
          → E.tables.find (version_table s.db) j ≡ some bytes
          → size_of_version < length bytes)
      → req.target ≡ some target
      → down.target ≡ some (record { path = target.path; version = none })
      → delete req s ≡ (ok shredded, t)
      → ¬ download down t ≡ (ok r, u)
  delete-no_download req down s t u target shredded r naming e1 e2 deleted downloaded =
      let a = delete_effect req s t shredded deleted in
      let b = download_effect down t u r downloaded in
      let a_target : a.target ≡ target = cc (a.target_given, e1) in
      let b_target : b.target ≡ record { path = target.path; version = none } =
        cc (b.target_given, e2) in
      let a_path : pop target.path ≡ some (a.dir, a.name) =
        ap (λ (x : RequestedFileId). pop x.path) (sym a_target) ∙ a.path_given in
      let b_path : pop target.path ≡ some (b.dir, b.name) =
        ap (λ (x : RequestedFileId). pop x.path) (sym b_target) ∙ b.path_given in
      let same_dir : b.dir ≡ a.dir = cc (a_path, b_path) in
      let same_name : b.name ≡ a.name = cc (a_path, b_path) in
      let before = Removed-before a.file _ _ _ _ _ _ a.removed in
      let same_parent : b.parent_id ≡ a.parent_id =
        Resolves-unique
          (Resolves-more make_key s.db.fs t.db.fs before (rw same_dir at b.parent_found))
          a.parent_found in
      let still_there = rw (same_parent, same_name) at b.was_there in
      let versioned = Removed-versioned a.file _ _ _ _ _ _ a.removed still_there in
      let same_bytes : b.file_bytes ≡ a.bytes = cc (before _ _ still_there, a.was_there) in
      let same_file : b.file ≡ a.file = cc (b.file_read, a.file_read, same_bytes) in
      let same_table : version_table s.db ≡ b.versions =
        version_table-some s.db b.versions (sym a.removed.same_ver ∙ b.has_versions) in
      let latest : b.target.version ≡ none = ap (λ (x : RequestedFileId). x.version) b_target in
      let found = rw (← same_table, latest, same_file) at b.version_found in
      let blob =
        is_blob_up_to-latest s.blobs_path _ a.file.id a.file.latest_version b.bytes found
          (naming _ _ found) in
      absurd (
        b.chunk.there (
          rw (a.same_base) (
            rw (versioned, blob) at
              (a.removed.blobs_after (push s.blobs_path (drop size_of_version b.bytes))))))
