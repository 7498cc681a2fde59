-- ===== src/FileDriver/Upload.antt =====
-- `FileStorage::upload` (yeetbox-server/src/storage/file.rs).
pub mod Received
pub mod Publish
pub mod Reserve
pub mod Again
use yeetbox.Common.{
  ℕ, zero, suc, ◌+◌, Bool, true, false, not, Option, none, some, [], ◌∷◌, ◌++◌, Bytes, length,
  reverse, leb, ◌==◌, if◌then◌else◌,
}
use yeetbox.Status.{Result, ok, invalid_argument, internal, io, err, refuse_if, or_refuse}
use yeetbox.Words.{add64}
use yeetbox.Env.{IoResult, done, failed}
use yeetbox.Storage.State.{codes}
use yeetbox.Storage.Request.{UploadArg, require_target}
use yeetbox.FileDriver.Paths.{FilePath, push, pop, target_path}
use yeetbox.FileDriver.Host.{Host, kind_not_found, kind_already_exists}
use yeetbox.FileDriver.Numbers.{pad12, latest_major}
use yeetbox.FileDriver.State.{
  Action, pure, lift, base_path, ◌>>=◌, ◌>>◌, change, write, try_look, try_change, new_ulid,
}

abbrev pub head_file_name : Bytes
head_file_name = codes "_head"

abbrev pub blobs_dir_name : Bytes
blobs_dir_name = codes "_blobs"

abbrev pub major_version_1 : Bytes
major_version_1 = codes "000000000001"

abbrev pub minor_version_0 : Bytes
minor_version_0 = codes "000000000000"

module _ ⦃H : Host⦄ where
  -- A new ULID, or the continuation token, which has to have 16 bytes.
  unfoldable pub choose_ulid : Bytes → Action ℕ
  choose_ulid continuation =
      if length continuation == 0
      then new_ulid
      else if length continuation == 16
      then pure (H.ulid_from_bytes continuation)
      else lift (err (invalid_argument "invalid continuation token"))

  -- `format!("{}.blob", ulid)`
  abbrev pub blob_file_name : ℕ → Bytes
  blob_file_name ulid = H.ulid_text ulid ++ codes ".blob"

  -- The end of an upload: the blob becomes the file of its version, and the link is made.
  unfoldable pub publish : FilePath → FilePath → FilePath → Action Bytes
  publish blob_path serial_path head_path = do
    change (H.tree.rename blob_path serial_path)
    change (H.tree.symlink serial_path head_path)
    pure []

  unfoldable pub first_version : FilePath → FilePath → FilePath → Action Bytes
  first_version blob_path dir head_path = do
    let serial_path = push dir major_version_1
    change (H.tree.create_dir_all serial_path)
    publish blob_path (push serial_path minor_version_0) head_path

  -- How the loop goes on after `create_dir`: it breaks, goes on, or returns the error.
  unfoldable pub after_try :
      IoResult (Unit {0}) → Action (ℕ × FilePath) → Action (ℕ × FilePath) → Action (ℕ × FilePath)
  after_try (done _) found rest = found
  after_try (failed k) found rest = if k == kind_already_exists then rest else lift (err (io k))

  -- The loop for a free major version, with the rounds that are left as fuel: `inc_tries` starts at
  -- 1 and grows in every round, so the test fails after 1000 rounds.
  unfoldable pub reserve : ℕ → ℕ → ℕ → FilePath → Action (ℕ × FilePath)
  unfolding after_try
  reserve zero inc_tries major serial_path = pure (inc_tries, serial_path)
  reserve (suc fuel) inc_tries major serial_path =
      let major' = add64 major 1 in
      let serial_path' = push (pop serial_path) (pad12 major') in
      let rest = reserve fuel (inc_tries + 1) major' serial_path' in
      let round = try_change (H.tree.create_dir serial_path') >>= λ made.
      after_try made (pure (inc_tries + 1, serial_path')) rest in
      if leb inc_tries 1000 then round else pure (inc_tries, serial_path)

  -- What follows the loop: the check of the tries, and the file of the new version.
  unfoldable pub next_version : FilePath → FilePath → ℕ → Action Bytes
  unfolding pad12
  next_version blob_path head_path major = do
    (inc_tries, serial_path) ← reserve 1000 1 major head_path
    lift (refuse_if (inc_tries == 1000) (internal "failed to create new version"))
    publish blob_path (push serial_path (pad12 0)) head_path

  -- The match on `read_link`.
  unfoldable pub after_head : FilePath → FilePath → FilePath → IoResult FilePath → Action Bytes
  after_head blob_path dir head_path (failed k) =
      if k == kind_not_found then first_version blob_path dir head_path else lift (err (io k))
  after_head blob_path dir head_path (done latest) = do
    major ← lift (latest_major latest)
    next_version blob_path head_path major

  -- The part of `upload` after the last message.
  unfoldable pub finish_upload : Bool → FilePath → Action Bytes
  unfolding push pop
  finish_upload next blob_path =
      let dir = pop (pop blob_path) in
      let head_path = push dir head_file_name in
      if not next
      then first_version blob_path dir head_path
      else try_look (H.tree.read_link head_path) >>= λ head. after_head blob_path dir head_path head

  -- The answer is the continuation token.
  unfoldable pub upload : UploadArg → Action Bytes
  unfolding push target_path
  upload req = do
    target ← lift (require_target req.target)
    base ← base_path
    path ← lift (target_path base target.path)
    let blobs_path = push path blobs_dir_name
    change (H.tree.create_dir_all blobs_path)
    ulid ← choose_ulid req.continuation
    let blob_path = push blobs_path (blob_file_name ulid)
    change (H.tree.open_append blob_path)
    write (H.tree.write blob_path req.contents)
    if req.incomplete then pure (H.ulid_to_bytes ulid) else finish_upload req.next blob_path
