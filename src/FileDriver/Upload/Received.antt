-- ===== src/FileDriver/Upload/Received.antt =====
-- The part of `upload` that every message goes through (yeetbox-server/src/storage/file.rs): the
-- data goes to the end of the blob.
use yeetbox.Common.{
  ℕ, ◌+◌, ◌≡◌, ◌≢◌, refl, ap, ◌∙◌, true, false, none, some, [], ◌∷◌, ◌++◌, Bytes, bytes_eq, length,
  length-zero_nil, take, ◌==◌, ==_iff, arith, if◌then◌else◌, inl, inr, Bool-cases,
}
use yeetbox.Status.{ok}
use yeetbox.Env.{done}
use yeetbox.Storage.State.{codes}
use yeetbox.Storage.Request.{UploadArg, FileId}
use yeetbox.Storage.Upload.Blob.{IsTokenOf}
use yeetbox.FileDriver.Paths.{FilePath, has_slash, leads_up, is_rooted, push, target_path}
use yeetbox.FileDriver.Paths.Names.{push-name, leads_up-name, is_rooted-append}
use yeetbox.FileDriver.Host.{Host, Node, file, is_name, appendable}
use yeetbox.FileDriver.State.{FileWorld, pure, ◌>>=◌, new_ulid}
use yeetbox.FileDriver.Inversion.{
  after_bind, after_lift, after_require, after_base, after_change, after_write,
}
use yeetbox.FileDriver.Upload.{blobs_dir_name, blob_file_name, choose_ulid, finish_upload, upload}

has_slash-append :
    (x y : Bytes) → has_slash x ≡ false → has_slash y ≡ false → has_slash (x ++ y) ≡ false
has_slash-append [] y h k = k
has_slash-append (c ∷ x) y h k = ground (arith, has_slash-append x y)

blob-not_nil : (x : Bytes) → bytes_eq (x ++ codes ".blob") [] ≡ false
blob-not_nil [] = refl
blob-not_nil (c ∷ x) = refl

is_name-blob : (x : Bytes) → has_slash x ≡ false → is_name (x ++ codes ".blob") ≡ true
is_name-blob [] h = refl
is_name-blob (a ∷ []) h = ground arith
is_name-blob (a ∷ b ∷ x) h = ground (arith, has_slash-append x (codes ".blob"), blob-not_nil x)

module _ ⦃H : Host⦄ where
  pub blob_file_name-name : (ulid : ℕ) → is_name (blob_file_name ulid) ≡ true
  blob_file_name-name ulid = is_name-blob (H.ulid_text ulid) (H.ulid_text-no_slash ulid)

  -- Where the data of an upload is collected.
  abbrev pub blob_path_of : FilePath → ℕ → FilePath
  blob_path_of p ulid = (p ++ (blobs_dir_name ∷ [])) ++ (blob_file_name ulid ∷ [])

  -- The ULID is new, or it is that of the token.
  abbrev pub IsChosen : Bytes → FileWorld → ℕ → Type 0
  IsChosen continuation s ulid =
      IsTokenOf (H.new_ulid s.tick) (H.ulid_from_bytes continuation) continuation ulid

  chosen :
      (c : Bytes) (s t : FileWorld) (ulid : ℕ)
      → choose_ulid c s ≡ (ok ulid, t)
      → IsChosen c s ulid × (t.disk ≡ s.disk) × (t.path ≡ s.path)
  unfolding choose_ulid ◌>>=◌ new_ulid
  chosen c s t ulid h = elim (Bool-cases (length c == 0)) [
    | inl none_ ↦
        let e : (ok (H.new_ulid s.tick), record s { tick = s.tick + 1 }) ≡ (ok ulid, t) =
          rw none_ at h in
        (inl (length-zero_nil c ((==_iff _ _).0 none_), cc e), cc e, cc e)
    | inr some_ ↦ elim (Bool-cases (length c == 16)) [
      | inl fits ↦
          let e : (ok (H.ulid_from_bytes c), s) ≡ (ok ulid, t) = rw (some_, fits) at h in
          (inr ((==_iff _ _).0 fits, cc e), cc e, cc e)
      | inr unfit ↦ absurd (cc (rw (some_, unfit) at h))
    ]
  ]

  -- What a successful upload, complete or not, has done to the blob, and what was left to do.
  pub record Received (req : UploadArg) (s t : FileWorld) (token : Bytes) : Type 0 where
    pub target : FileId
    pub p : FilePath
    pub ulid : ℕ
    pub made : H.tree.Disk
    pub opened : H.tree.Disk
    pub world : FileWorld
    pub taken : ℕ
    pub target_given : req.target ≡ some target
    pub path_given : target_path s.path target.path ≡ ok p
    pub is_chosen : IsChosen req.continuation s ulid
    pub made_by : H.tree.create_dir_all (push p blobs_dir_name) s.disk ≡ done made
    pub opened_by :
        H.tree.open_append (push (push p blobs_dir_name) (blob_file_name ulid)) made ≡ done opened
    pub written_by :
        H.tree.write (push (push p blobs_dir_name) (blob_file_name ulid)) req.contents opened
        ≡ done (world.disk, taken)
    pub same_path : world.path ≡ s.path
    pub rest :
        (if req.incomplete
            then pure (H.ulid_to_bytes ulid)
            else finish_upload req.next (push (push p blobs_dir_name) (blob_file_name ulid)))
          world
        ≡ (ok token, t)

  pub received :
      (req : UploadArg) (s t : FileWorld) (token : Bytes)
      → upload req s ≡ (ok token, t)
      → Received req s t token
  unfolding upload
  received req s t token = after_require _ s req.target _ λ target e1. after_base _ s (
      after_lift _ s (target_path s.path target.path) λ p e2. after_change _ s _ λ made e3.
        after_bind _ (record s { disk = made }) (choose_ulid req.continuation)
          λ ulid w e4.
            let (c, same_disk, same_path) = chosen req.continuation _ w ulid e4 in
            after_change _ w _ λ opened e5.
              after_write _ (record w { disk = opened }) _
                λ disk taken e6 e7. record {
                  target = target;
                  p = p;
                  ulid = ulid;
                  made = made;
                  opened = opened;
                  world = record w { disk = disk };
                  taken = taken;
                  target_given = e1;
                  path_given = e2;
                  is_chosen = c;
                  made_by = e3;
                  opened_by = rw (same_disk) at e5;
                  written_by = e6;
                  same_path = same_path;
                  rest = e7;
                })

  module _ (p : FilePath) (rooted : is_rooted p ≡ true) where
    -- The paths as the code builds them.
    pub pushed_blob_path :
        (ulid : ℕ) → push (push p blobs_dir_name) (blob_file_name ulid) ≡ blob_path_of p ulid
    pushed_blob_path ulid = rw (push-name p blobs_dir_name rooted refl) (
        push-name (p ++ (blobs_dir_name ∷ [])) (blob_file_name ulid)
          (is_rooted-append p (blobs_dir_name ∷ []) rooted) (blob_file_name-name ulid))

    -- What the blob held, or nothing if there was none, is followed by what was taken of the data.
    pub Received-blob :
        (req : UploadArg) (s t : FileWorld) (token : Bytes) (a : Received req s t token)
        → a.p ≡ p
        → leads_up p ≡ false
        → {old : Bytes} → appendable (H.tree.entry s.disk (blob_path_of p a.ulid)) ≡ some old
        → H.tree.entry a.world.disk (blob_path_of p a.ulid)
          ≡ some (file (old ++ take a.taken req.contents))
    Received-blob req s t token a e down before =
        let blobs = push-name p blobs_dir_name rooted refl in
        let made_by = rw (e, blobs) at a.made_by in
        let opened_by = rw (e, pushed_blob_path a.ulid) at a.opened_by in
        let written_by = rw (e, pushed_blob_path a.ulid) at a.written_by in
        let same =
          H.tree.child-create_dir_all _ _ made_by (leads_up-name p _ down refl)
            (blob_file_name a.ulid) (blob_file_name-name a.ulid) in
        H.tree.entry-write _ _ _ written_by
          (H.tree.entry-open_append _ _ opened_by (ap appendable same ∙ before))

    -- What existed still does.
    pub Received-keeps :
        (req : UploadArg) (s t : FileWorld) (token : Bytes) (a : Received req s t token)
        (q : FilePath) {n : Node}
        → H.tree.entry s.disk q ≡ some n
        → H.tree.entry a.world.disk q ≢ none
    Received-keeps req s t token a q there =
        let there1 = H.tree.create_dir_all_keeps _ _ a.made_by q there in
        let there2 = H.tree.open_append_keeps _ _ a.opened_by q there1 in
        H.tree.write_keeps _ _ _ a.written_by q (λ gone. cc (there2, gone))
