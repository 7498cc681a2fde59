-- ===== src/Storage/RoundTrip.antt =====
-- What was uploaded is what is downloaded (yeetbox-server/src/storage/database.rs).
use yeetbox.Common.{
  ℕ, ◌^◌, ◌<◌, ◌≡◌, refl, sym, ap, ◌∙◌, Bool, true, false, Option, none, some, List, [], ◌∷◌, ◌++◌,
  Bytes, bytes_eq, bytes_eq_iff, bytes_eq_refl, Bool-cases, if◌then◌else◌, begins-drop-take,
  take-append_more, length, ◌⊎◌, ◌+◌, take, drop, arith, inl, inr,
}
use yeetbox.Status.{ok}
use yeetbox.Env.{Env, WritesWhole}
use yeetbox.Text.{trim}
use yeetbox.Words.{to_be_bytes}
use yeetbox.Records.{
  FileSystemId, size_of_version, bytes_of_record, bytes_of_version, bytes_of_version_key,
}
use yeetbox.Records.Codec.{read_record_id, record_of_bytes, path_of_version}
use yeetbox.Storage.State.{World, Db, push, push-push, is_absolute, pop, codes}
use yeetbox.Storage.Path.{Text, make_key, raw_key}
use yeetbox.Storage.Path.Resolve.{Resolves, Resolves-unique}
use yeetbox.Storage.Request.{
  FileId, FileVersion, RequestedFileId, UploadArg, DownloadArg, DownloadResult,
}
use yeetbox.Storage.Upload.{blob_path_of, upload}
use yeetbox.Storage.Upload.Effect.{Uploaded, upload_effect}
use yeetbox.Storage.Upload.Blob.{Saved}
use yeetbox.Storage.Upload.Recorded.{Recorded}
use yeetbox.Storage.Upload.Messages.{Sends, Written-more, Sends-IsCollected}
use yeetbox.Storage.Download.{download}
use yeetbox.Storage.Download.Effect.{Downloaded, download_effect}

module _ ⦃E : Env⦄ where
  -- The version that a download of the latest finds is the one that the upload has recorded.
  version_path :
      {single : Bool} {base p key : Bytes} {name : Text} {ulid tick : ℕ} {w : Db} {d : E.files.Disk}
      {t : World} {req : DownloadArg} {r : DownloadResult}
      (a : Recorded single base p key name ulid w t.db tick d t.disk) (b : Downloaded req t r)
      → make_key b.parent_id b.name ≡ key
      → b.target.version ≡ none
      → drop size_of_version b.bytes ≡ a.blob_path
  version_path {key} {name} a b same_key latest =
      let stored = rw (bytes_eq_refl key) at (a.stored key) in
      let same_bytes : b.file_bytes ≡ bytes_of_record a.file ++ name =
        cc (stored, b.was_there, same_key) in
      let same_file = record_of_bytes b.file_bytes b.file_read in
      let id_small : a.file.id < 2 ^ 64 = omega (arith, a.is_new.has_id) in
      let (ids, versions) =
        read_record_id a.file name id_small (omega (arith, a.is_new.has_version)) in
      let same_id : b.file.id ≡ a.file.id = cc (same_file, same_bytes, ids) in
      let first : b.file.latest_version ≡ 1 =
        cc (same_file, same_bytes, versions, a.is_new.has_version) in
      let same_versions : b.versions ≡ a.versions = cc (b.has_versions, a.has_versions) in
      let version_key = bytes_of_version_key (record { file_id = a.file.id; version = 1 }) in
      let version_stored = rw (bytes_eq_refl version_key) at (a.version_stored version_key) in
      let found = rw (latest, same_id, first, same_versions) at b.version_found in
      let same_version : b.bytes ≡ bytes_of_version a.version ++ a.blob_path =
        cc (version_stored, found) in
      rw same_version (path_of_version a.version a.blob_path)

  push-blob_path_of :
      (base : Bytes) (ulid : ℕ)
      → is_absolute base ≡ true
      → push base (blob_path_of base ulid) ≡ blob_path_of base ulid
  unfolding blob_path_of
  push-blob_path_of base ulid h = push-push base (E.ulid_text ulid ++ codes ".blob") h

  -- Every component is in normal form.
  abbrev pub IsNormal : List Text → Type 0
  IsNormal [] = Unit
  IsNormal (pc ∷ path) = (E.nfkd pc ≡ pc) × IsNormal path

  -- A new entry hides no folder, and an upload and a download descend alike through components in
  -- normal form.
  pub Resolves-kept :
      (fs fs' : E.tables.Table) (key value : Bytes)
      → E.tables.find fs key ≡ none
      → ((j : Bytes)
          → E.tables.find fs' j ≡ (if bytes_eq key j then some value else E.tables.find fs j))
      → (path : List Text) {p q : FileSystemId} → IsNormal path
      → Resolves raw_key fs p path q
      → Resolves make_key fs' p path q
  unfolding raw_key make_key
  Resolves-kept fs fs' key value free stored [] normal Resolves.here = Resolves.here
  Resolves-kept fs fs' key value free stored (pc ∷ path) {p} normal
        (Resolves.down v found long folder rest) =
      let j = to_be_bytes 8 p ++ E.nfkd pc in
      let there : E.tables.find fs j ≡ some v =
        ap (λ n. E.tables.find fs (to_be_bytes 8 p ++ n)) normal.0 ∙ found in
      let kept : E.tables.find fs' j ≡ some v = elim (Bool-cases (bytes_eq key j)) [
        | inr other ↦ stored j ∙ rw other there
        | inl same ↦
            let e : key ≡ j = (bytes_eq_iff key j).0 same in
            absurd (cc (ap (E.tables.find fs) e, there, free))
      ] in
      Resolves.down v kept long folder
        (Resolves-kept fs fs' key value free stored path normal.1 rest)

  -- A download of the latest version reads where the upload has stored the path to.
  latest_path :
      (up : UploadArg) (down : DownloadArg) (up_path down_path dir : List Text) (name : Text)
      (version : Option FileVersion) (s t : World) (r : DownloadResult) (a : Uploaded up s t)
      (b : Downloaded down t r)
      → up.target ≡ some (record { path = up_path; version = version })
      → down.target ≡ some (record { path = down_path; version = none })
      → pop up_path ≡ some (dir, name)
      → pop down_path ≡ some (dir, trim name)
      → IsNormal dir
      → drop size_of_version b.bytes ≡ a.recorded.blob_path
  latest_path up down up_path down_path dir name version s t r a b e3 e4 e5 e6 normal =
      let a_target : a.target ≡ record { path = up_path; version = version } =
        cc (a.target_given, e3) in
      let b_target : b.target ≡ record { path = down_path; version = none } =
        cc (b.target_given, e4) in
      let a_path : some (a.parents, a.name) ≡ some (dir, name) =
        sym a.path_given ∙ ap (λ (x : FileId). pop x.path) a_target ∙ e5 in
      let b_path : some (b.dir, b.name) ≡ some (dir, trim name) =
        sym b.path_given ∙ ap (λ (x : RequestedFileId). pop x.path) b_target ∙ e6 in
      let a_dir : a.parents ≡ dir = cc a_path in
      let b_dir : b.dir ≡ dir = cc b_path in
      let a_name : a.name ≡ name = cc a_path in
      let b_name : b.name ≡ trim name = cc b_path in
      let same_parent : b.parent_id ≡ a.parent_id = Resolves-unique (rw b_dir at b.parent_found) (
        Resolves-kept s.db.fs t.db.fs _ _ a.recorded.was_free a.recorded.stored dir normal
          (rw a_dir at a.parent_found)) in
      version_path a.recorded b (rw (same_parent, a_name, b_name) refl)
        (ap (λ (x : RequestedFileId). x.version) b_target)

  -- The path that the last message has stored is that of the blob.
  pub Saved-push :
      (single : Bool) (base : Bytes) (ulid : ℕ) (saved : Bytes) (tick : ℕ) (d d' : E.files.Disk)
      → is_absolute base ≡ true
      → Saved single base (blob_path_of base ulid) saved tick d d'
      → push base saved ≡ saved
  Saved-push single base ulid saved tick d d' absolute a = elim a.named [
    | inl (e, same) ↦ rw same (push-blob_path_of base ulid absolute)
    | inr (e, (k, since, renamed)) ↦ rw renamed (push-blob_path_of base (E.new_ulid k) absolute)
  ]

  -- After a whole upload, in one message or in several that follow one another, a successful
  -- download of the latest version under the same parents and the trimmed name gives the data of
  -- all the messages from the offset on, or a beginning of it: if the parents' names are in normal
  -- form, the path of the blobs is absolute, the ULID is below 2 ^ 128 and names no blob yet, and,
  -- where there are several messages, writes take all of their data.
  pub download-upload :
      (last : UploadArg) (down : DownloadArg) (last_path down_path dir : List Text) (name : Text)
      (version : Option FileVersion) (s t u v : World) (sent token token' : Bytes)
      (r : DownloadResult)
      → (token ≡ []) ⊎ WritesWhole E.files
      → E.new_ulid s.tick < 2 ^ 128
      → E.files.content s.disk (blob_path_of s.blobs_path (E.new_ulid s.tick)) ≡ none
      → is_absolute s.blobs_path ≡ true
      → Sends s t sent token
      → last.continuation ≡ token
      → last.incomplete ≡ false
      → last.target ≡ some (record { path = last_path; version = version })
      → down.target ≡ some (record { path = down_path; version = none })
      → pop last_path ≡ some (dir, name)
      → pop down_path ≡ some (dir, trim name)
      → IsNormal dir
      → upload last t ≡ (ok token', u)
      → download down u ≡ (ok r, v)
      → r.contents ≡ take (length r.contents) (drop down.offset (sent ++ last.contents))
  download-upload last down last_path down_path dir name version s t u v sent token token' r how
        small fresh absolute sends e1 e2 e3 e4 e5 e6 normal uploaded downloaded =
      let collected = rw (← e1) at (Sends-IsCollected s small fresh how sends) in
      let a = upload_effect last t u token' e2 uploaded in
      let b = download_effect down u v r downloaded in
      let (same_ulid, stored) =
        Written-more s last t a.disk a.ulid sent a.written a.is_chosen collected in
      let found =
        latest_path last down last_path down_path dir name version t u r a b e3 e4 e5 e6 normal in
      let saved = a.recorded.blob_saved in
      let pushed = Saved-push _ t.blobs_path a.ulid _ _ _ _ (rw (collected.0) absolute) saved in
      let written : E.files.content u.disk (push u.blobs_path (drop size_of_version b.bytes))
          ≡ some (sent ++ take a.written.taken last.contents) =
        rw (found, a.same_base, pushed, saved.kept, collected.0, same_ulid) stored in
      begins-drop-take down.offset (length sent + a.written.taken) r.contents
        (sent ++ last.contents)
        (rw (take-append_more sent a.written.taken last.contents)
          (rw written at b.chunk.same_contents))
