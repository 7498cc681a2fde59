-- ===== src/FileDriver/Delete/Effect.antt =====
-- What a successful `delete` leaves (yeetbox-server/src/storage/file.rs).
use yeetbox.Common.{
  ℕ, zero, suc, ◌-◌, ◌≡◌, ◌≢◌, refl, ◌∙◌, Bool, true, false, Option, none, some, [], ◌∷◌, ◌++◌,
  Bytes, length, arith,
}
use mathlib.Core.List.{append_assoc, append-nil}
use yeetbox.Status.{ok}
use yeetbox.Text.{decimal}
use yeetbox.Text.Digits.{all_digits, decimal-digits}
use yeetbox.Storage.Request.{
  DeleteArg, DownloadArg, DownloadResult, RequestedFileId, RequestedFileVersion,
}
use yeetbox.FileDriver.Paths.{FilePath, has_slash, kept, push, target_path}
use yeetbox.FileDriver.Paths.Confined.{push-part}
use yeetbox.FileDriver.Host.{Host}
use yeetbox.FileDriver.Numbers.{zeros, pad12}
use yeetbox.FileDriver.State.{FileWorld}
use yeetbox.FileDriver.Inversion.{
  after_lift, after_require, after_base, after_change, after_look, at_return,
}
use yeetbox.FileDriver.Upload.{head_file_name}
use yeetbox.FileDriver.Download.{versions_dir_name, minor_file_name, version_path, download}
use yeetbox.FileDriver.Delete.{delete}

-- The path goes on from the other.
IsBelow : FilePath → FilePath → Type 0
IsBelow p q = (rest : FilePath) × (q ≡ p ++ rest)

push-IsBelow :
    (c : Bytes) (p q : FilePath) (x : Bytes)
    → has_slash x ≡ false
    → IsBelow (c ∷ p) q
    → IsBelow (c ∷ p) (push q x)
unfolding IsBelow
push-IsBelow c p q x h (rest, e) = (
  rest ++ kept (x ∷ []),
  rw e (push-part c (p ++ rest) x h ∙ append_assoc (c ∷ p) rest (kept (x ∷ []))),
)

digits-no_slash : (s : Bytes) → all_digits s ≡ true → has_slash s ≡ false
digits-no_slash [] h = refl
digits-no_slash (c ∷ s) h = ground (arith, digits-no_slash s)

zeros-no_slash : (n : ℕ) (s : Bytes) → has_slash s ≡ false → has_slash (zeros n ++ s) ≡ false
zeros-no_slash zero s h = h
zeros-no_slash (suc n) s h = zeros-no_slash n s h

pad12-no_slash : (n : ℕ) → has_slash (pad12 n) ≡ false
unfolding pad12
pad12-no_slash n =
    zeros-no_slash (12 - length (decimal n)) (decimal n)
      (digits-no_slash (decimal n) (decimal-digits n))

minor-no_slash : (v : Option ℕ) → has_slash (minor_file_name v) ≡ false
unfolding minor_file_name
minor-no_slash none = refl
minor-no_slash (some minor) = pad12-no_slash minor

version_path-IsBelow :
    (c : Bytes) (p : FilePath) (v : Option RequestedFileVersion)
    → IsBelow (c ∷ p) (version_path (c ∷ p) v)
unfolding version_path IsBelow
version_path-IsBelow c p none =
    push-IsBelow c p (c ∷ p) head_file_name refl ([], rw append-nil refl)
version_path-IsBelow c p (some v) =
    push-IsBelow c p _ (minor_file_name v.minor) (minor-no_slash v.minor) (
      push-IsBelow c p _ (pad12 v.major) (pad12-no_slash v.major)
        (push-IsBelow c p (c ∷ p) versions_dir_name refl ([], rw append-nil refl)))

module _ ⦃H : Host⦄ where
  deleted :
      (req : DeleteArg) (s t : FileWorld) (b : Bool) (target : RequestedFileId) (p : FilePath)
      → req.target ≡ some target
      → target_path s.path target.path ≡ ok p
      → delete req s ≡ (ok b, t)
      → ((rest : FilePath) → H.tree.entry t.disk (p ++ rest) ≡ none) × (t.path ≡ s.path)
  unfolding delete
  deleted req s t b target p e1 e2 = after_require _ s req.target _ λ target' e3. after_base _ s (
      after_lift _ s (target_path s.path target'.path) λ p' e4. after_change _ s _ λ d e5.
        at_return (record s { disk = d }) false
          λ e6 e7.
            let same_target : target' ≡ target = cc (e1, e3) in
            let same_p : p' ≡ p = cc (rw same_target at e4, e2) in
            let gone = H.tree.entry-remove_dir_all _ _ (rw same_p at e5) in rw (← e7) (gone, refl))

  opened :
      (req : DownloadArg) (s t : FileWorld) (r : DownloadResult) (target : RequestedFileId)
      (p : FilePath)
      → req.target ≡ some target
      → target_path s.path target.path ≡ ok p
      → download req s ≡ (ok r, t)
      → H.tree.entry s.disk (version_path p target.version) ≢ none
  unfolding download
  opened req s t r target p e1 e2 = after_require _ s req.target _ λ target' e3. after_base _ s (
      after_lift _ s (target_path s.path target'.path) λ p' e4. after_look _ s _ λ u e5 rest.
        let same_target : target' ≡ target = cc (e1, e3) in
        let same_p : p' ≡ p = cc (rw same_target at e4, e2) in
        H.tree.open_read_exists _ _ (rw (same_p, same_target) at e5))

  -- After a successful `delete`, no download from the same path succeeds, whatever the version:
  -- nothing is left below the path.
  pub download-delete :
      (del : DeleteArg) (req : DownloadArg) (s t u : FileWorld) (b : Bool) (r : DownloadResult)
      (from to : RequestedFileId) (c : Bytes) (p : FilePath)
      → del.target ≡ some from
      → req.target ≡ some to
      → to.path ≡ from.path
      → target_path s.path from.path ≡ ok (c ∷ p)
      → delete del s ≡ (ok b, t)
      → download req t ≢ (ok r, u)
  unfolding IsBelow
  download-delete del req s t u b r from to c p e1 e2 same_strs to_p was_deleted downloaded =
      let (gone, same_base) = deleted del s t b from (c ∷ p) e1 to_p was_deleted in
      let there = opened req t u r to (c ∷ p) e2 (rw (same_base, same_strs) to_p) downloaded in
      let (rest, below) = version_path-IsBelow c p to.version in there (rw below (gone rest))
