-- ===== src/FileDriver/Upload/Again.antt =====
-- Uploads to a file that is there already (yeetbox-server/src/storage/file.rs).
use yeetbox.Common.{
  ℕ, ◌≡◌, ◌≢◌, refl, ap, Bool, true, false, none, some, Option-cases, [], ◌∷◌, ◌++◌, Bytes,
  bytes_eq, bytes_eq_iff, length, length-append, length-zero_nil, ◌==◌, arith, Bool-cases, inl, inr,
}
use yeetbox.Status.{Status, ok, err, internal, io}
use yeetbox.Env.{IoResult, done, failed}
use yeetbox.Storage.State.{codes}
use yeetbox.Storage.Request.{UploadArg, FileId}
use yeetbox.FileDriver.Paths.{FilePath, is_rooted, leads_up, push, target_path}
use yeetbox.FileDriver.Paths.Names.{push-name}
use yeetbox.FileDriver.Host.{Host, file, appendable, kind_not_found}
use yeetbox.FileDriver.Numbers.{pad12, latest_major}
use yeetbox.FileDriver.State.{FileWorld, lift, ◌>>=◌}
use yeetbox.FileDriver.Inversion.{
  after_bind, after_lift, after_refuse, after_change, after_try_look,
}
use yeetbox.FileDriver.Upload.{
  head_file_name, blobs_dir_name, blob_file_name, publish, first_version, next_version, after_head,
  reserve, finish_upload, upload,
}
use yeetbox.FileDriver.Upload.Received.{
  received, Received-blob, Received-keeps, blob_path_of, pushed_blob_path, IsChosen,
}
use yeetbox.FileDriver.Upload.Publish.{head_path_of, popped_blob_path}
use yeetbox.FileDriver.Upload.Reserve.{
  next_path, candidate, major_after, AllTaken, reserve-taken, reserve-made, reserve_keeps,
}

module _ ⦃H : Host⦄ where
  -- If the 1000 directories that the loop tries are all there, the check of the tries does not see
  -- it: the upload goes on and moves the blob over minor version 0 of the last of them, as if it
  -- had made it.
  pub next_version-AllTaken :
      (blob_path head_path : FilePath) (major : ℕ) (s : FileWorld)
      → AllTaken 1000 major head_path s.disk
      → next_version blob_path head_path major s
        ≡ publish blob_path (push (candidate 1000 major head_path) (pad12 0)) head_path s
  unfolding next_version ◌>>=◌ reserve
  next_version-AllTaken blob_path head_path major s taken =
      let ended = reserve-taken 1000 0 1 major head_path s (omega arith) taken in rw ended refl

  -- If the loop makes its directory in the 999th round, the check takes it for a failure, and the
  -- upload ends with an error after the directory was made.
  pub next_version-last_try :
      (blob_path head_path : FilePath) (major : ℕ) (s : FileWorld) (d : H.tree.Disk)
      → AllTaken 998 major head_path s.disk
      → H.tree.create_dir (next_path (major_after 998 major) (candidate 998 major head_path)) s.disk
        ≡ done d
      → next_version blob_path head_path major s
        ≡ (err (internal "failed to create new version"), record s { disk = d })
  unfolding next_version ◌>>=◌
  next_version-last_try blob_path head_path major s d taken made =
      rw (reserve-made 998 1 major head_path s d (omega arith) taken made) refl

blob-not_head : (x : Bytes) → bytes_eq (x ++ codes ".blob") head_file_name ≡ false
blob-not_head x = elim (Bool-cases (bytes_eq (x ++ codes ".blob") head_file_name)) [
  | inr e ↦ e
  | inl e ↦
      let same : x ++ codes ".blob" ≡ head_file_name = (bytes_eq_iff _ _).0 e in
      let short : length x ≡ 0 = omega (arith, ap length same, length-append x (codes ".blob")) in
      absurd (cc (rw (length-zero_nil x short) at e))
]

module _ ⦃H : Host⦄ (p : FilePath) (rooted : is_rooted p ≡ true) (ulid : ℕ) where
  -- The blob is a file, and the file has a head.
  abbrev IsBlocked : FileWorld → Type 0
  IsBlocked s =
      ((c : Bytes) × (H.tree.entry s.disk (blob_path_of p ulid) ≡ some (file c)))
      × (H.tree.entry s.disk (head_path_of p) ≢ none)

  publish-blocked :
      (serial : FilePath) (s : FileWorld) {t : FileWorld} {token : Bytes}
      → IsBlocked s
      → publish (blob_path_of p ulid) serial (head_path_of p) s ≢ (ok token, t)
  unfolding publish
  publish-blocked serial s ((c, blob), head) = after_change _ s _ λ moved e1.
      after_change _ (record s { disk = moved }) _
        λ linked e2 rest.
          H.tree.rename_keeps (p ++ (blobs_dir_name ∷ [])) serial (blob_file_name ulid) s.disk e1
            blob p head_file_name refl (blob-not_head (H.ulid_text ulid)) head
            (H.tree.symlink_free _ _ _ e2)

  first_version-blocked :
      (s : FileWorld) {t : FileWorld} {token : Bytes}
      → IsBlocked s
      → first_version (blob_path_of p ulid) p (head_path_of p) s ≢ (ok token, t)
  unfolding first_version
  first_version-blocked s ((c, blob), head) = after_change _ s _ λ made e.
      publish-blocked _ (record s { disk = made })
        (
          (c, H.tree.create_dir_all_keeps _ _ e _ blob),
          λ gone. elim (Option-cases (H.tree.entry s.disk (head_path_of p))) [
            | inl e' ↦ head e'
            | inr (n, there) ↦ cc (H.tree.create_dir_all_keeps _ _ e _ there, gone)
          ],
        )

  next_version-blocked :
      (major : ℕ) (s : FileWorld) {t : FileWorld} {token : Bytes}
      → IsBlocked s
      → next_version (blob_path_of p ulid) (head_path_of p) major s ≢ (ok token, t)
  unfolding next_version
  next_version-blocked major s ((c, blob), head) =
      after_bind _ s (reserve 1000 1 major (head_path_of p)) λ (tries, serial) w e.
        after_refuse _ w _ _ λ _. publish-blocked _ w (
          (c, reserve_keeps 1000 1 major (head_path_of p) s e _ blob),
          λ gone. elim (Option-cases (H.tree.entry s.disk (head_path_of p))) [
            | inl e' ↦ head e'
            | inr (n, there) ↦ cc (reserve_keeps 1000 1 major (head_path_of p) s e _ there, gone)
          ],
        )

  refused :
      (e : Status) (s : FileWorld) {t : FileWorld} {token : Bytes} → lift (err e) s ≢ (ok token, t)
  unfolding lift
  refused e s h = cc h

  after_head-blocked :
      (found : IoResult FilePath) (s : FileWorld) {t : FileWorld} {token : Bytes}
      → IsBlocked s
      → after_head (blob_path_of p ulid) p (head_path_of p) found s ≢ (ok token, t)
  unfolding after_head
  after_head-blocked (done latest) s blocked run =
      after_lift _ s (latest_major latest) (λ major e. next_version-blocked major s blocked) run
  after_head-blocked (failed k) s blocked run = elim (Bool-cases (k == kind_not_found)) [
    | inl missing ↦ first_version-blocked s blocked (rw missing at run)
    | inr other ↦ refused (io k) s (rw other at run)
  ]

  finish_upload-blocked :
      (next : Bool) (s : FileWorld) {t : FileWorld} {token : Bytes}
      → IsBlocked s
      → finish_upload next (blob_path_of p ulid) s ≢ (ok token, t)
  unfolding finish_upload
  finish_upload-blocked false s blocked run =
      first_version-blocked s blocked
        (rw (popped_blob_path p rooted ulid, push-name p head_file_name rooted refl) at run)
  finish_upload-blocked true s blocked run =
      after_try_look _ s _ (λ run'. after_head-blocked _ s blocked run')
        (rw (popped_blob_path p rooted ulid, push-name p head_file_name rooted refl) at run)

module _ ⦃H : Host⦄ where
  -- A last message of an upload does not succeed where the file has a head already, whether or not
  -- it asks for the next version: if the path is absolute and does not lead up, and the blob is a
  -- regular file or missing.
  pub upload-head_taken :
      (req : UploadArg) (s t : FileWorld) (token : Bytes) (target : FileId) (p : FilePath)
      → req.target ≡ some target
      → target_path s.path target.path ≡ ok p
      → is_rooted p ≡ true
      → leads_up p ≡ false
      → req.incomplete ≡ false
      → ((ulid : ℕ)
          → IsChosen req.continuation s ulid
          → appendable (H.tree.entry s.disk (blob_path_of p ulid)) ≢ none)
      → H.tree.entry s.disk (head_path_of p) ≢ none
      → upload req s ≢ (ok token, t)
  upload-head_taken req s t token target p e1 e2 rooted down e3 fresh head run =
      let a = received req s t token run in
      let same_target : a.target ≡ target = cc (a.target_given, e1) in
      let path_given = rw same_target at a.path_given in
      let same_p : a.p ≡ p = cc (path_given, e2) in
      let rest = rw (e3, same_p, pushed_blob_path p rooted a.ulid) at a.rest in
      elim (Option-cases (appendable (H.tree.entry s.disk (blob_path_of p a.ulid)))) [
        | inl missing ↦ fresh a.ulid a.is_chosen missing
        | inr (old, there) ↦ elim (Option-cases (H.tree.entry s.disk (head_path_of p))) [
          | inl gone ↦ head gone
          | inr (n, here) ↦
              finish_upload-blocked p rooted a.ulid req.next a.world
                (
                  (_, Received-blob p rooted req s t token a same_p down there),
                  Received-keeps p rooted req s t token a (head_path_of p) here,
                )
                rest
        ]
      ]
