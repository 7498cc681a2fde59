-- ===== src/FileDriver/Upload/Publish.antt =====
-- The end of an upload (yeetbox-server/src/storage/file.rs): the blob becomes the file of a
-- version, to which the head of the file is a link.
use yeetbox.Common.{ℕ, ◌≡◌, refl, sym, true, false, some, [], ◌∷◌, ◌++◌, Bytes}
use yeetbox.Status.{ok}
use yeetbox.FileDriver.Paths.{FilePath, is_rooted, push, pop}
use yeetbox.FileDriver.Paths.Names.{push-name, pop-snoc, is_rooted-append}
use yeetbox.FileDriver.Host.{Host, file, link}
use yeetbox.FileDriver.State.{FileWorld}
use yeetbox.FileDriver.Inversion.{after_change, at_return}
use yeetbox.FileDriver.Upload.{
  head_file_name, blobs_dir_name, major_version_1, minor_version_0, blob_file_name, publish,
  first_version, finish_upload,
}
use yeetbox.FileDriver.Upload.Received.{blob_path_of, blob_file_name-name}

module _ ⦃H : Host⦄ where
  -- The file stands at its place, and the head is a link to it.
  abbrev pub IsPublished : FilePath → FilePath → Bytes → FileWorld → Type 0
  IsPublished serial_path head_path c t =
      (H.tree.entry t.disk serial_path ≡ some (file c))
      × (H.tree.entry t.disk head_path ≡ some (link serial_path))

  pub publish_lem :
      (blob serial head : FilePath) (s t : FileWorld) (token c : Bytes)
      → publish blob serial head s ≡ (ok token, t)
      → H.tree.entry s.disk blob ≡ some (file c)
      → IsPublished serial head c t × (t.path ≡ s.path) × (token ≡ [])
  unfolding publish
  publish_lem blob serial head s t token c run there =
      after_change _ s _
        (λ moved e1.
          after_change _ (record s { disk = moved }) _
            λ linked e2. at_return _ [] λ e3 e4.
              let in_place = H.tree.entry-rename _ _ _ e1 there in
              let here = H.tree.symlink_keeps _ _ _ e2 serial in_place in
              rw (← e4) ((here, H.tree.entry-symlink _ _ _ e2), refl, sym e3))
        run

  -- The file of the first version below the path.
  abbrev pub first_path : FilePath → FilePath
  first_path p = (p ++ (major_version_1 ∷ [])) ++ (minor_version_0 ∷ [])

  abbrev pub head_path_of : FilePath → FilePath
  head_path_of p = p ++ (head_file_name ∷ [])

  module _ (p : FilePath) (rooted : is_rooted p ≡ true) where
    pub popped_blob_path : (ulid : ℕ) → pop (pop (blob_path_of p ulid)) ≡ p
    popped_blob_path ulid =
        rw (pop-snoc (p ++ (blobs_dir_name ∷ [])) (blob_file_name ulid) (blob_file_name-name ulid))
          (pop-snoc p blobs_dir_name refl)

    pub pushed_first_path : push (push p major_version_1) minor_version_0 ≡ first_path p
    pushed_first_path = rw (push-name p major_version_1 rooted refl) (
        push-name (p ++ (major_version_1 ∷ [])) minor_version_0
          (is_rooted-append p (major_version_1 ∷ []) rooted) refl)

    pub first_version_lem :
        (blob : FilePath) (s t : FileWorld) (token c : Bytes)
        → first_version blob p (push p head_file_name) s ≡ (ok token, t)
        → H.tree.entry s.disk blob ≡ some (file c)
        → IsPublished (first_path p) (head_path_of p) c t × (t.path ≡ s.path) × (token ≡ [])
    unfolding first_version
    first_version_lem blob s t token c run there =
        after_change _ s _
          (λ made e1 run'.
            publish_lem blob (first_path p) (head_path_of p) (record s { disk = made }) t token c
              (rw (pushed_first_path, push-name p head_file_name rooted refl) at run')
              (H.tree.create_dir_all_keeps _ _ e1 blob there))
          run

    -- A last message that does not ask for the next version.
    pub finish_first :
        (ulid : ℕ) (s t : FileWorld) (token c : Bytes)
        → finish_upload false (blob_path_of p ulid) s ≡ (ok token, t)
        → H.tree.entry s.disk (blob_path_of p ulid) ≡ some (file c)
        → IsPublished (first_path p) (head_path_of p) c t × (t.path ≡ s.path) × (token ≡ [])
    unfolding finish_upload
    finish_first ulid s t token c run there =
        first_version_lem (blob_path_of p ulid) s t token c (rw (popped_blob_path ulid) at run)
          there
