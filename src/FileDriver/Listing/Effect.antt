-- ===== src/FileDriver/Listing/Effect.antt =====
-- What a successful `list` shows (yeetbox-server/src/storage/file.rs).
use yeetbox.Common.{
  ◌≡◌, ◌≢◌, ◌↔◌, refl, sym, ap, Bool, true, false, not, ◌&&◌, none, some, List, [], ◌∷◌, ◌++◌,
  Bytes, bytes_eq, bytes_eq_iff, arith, if◌then◌else◌, Bool-cases, inl, inr,
}
use yeetbox.Status.{Result, ok, >>=-eq-ok}
use yeetbox.Env.{IoResult, done, failed}
use yeetbox.Authn.{from_utf8}
use yeetbox.Storage.Request.{ListArg, RequestedFileId}
use yeetbox.FileDriver.Paths.{FilePath, is_rooted, target_path}
use yeetbox.FileDriver.Paths.Names.{push-name, pop-snoc}
use yeetbox.FileDriver.Host.{Host, DirEntry, has_name, is_name}
use yeetbox.FileDriver.State.{FileWorld, lift}
use yeetbox.FileDriver.Inversion.{
  after_lift, after_require, after_base, after_refuse, after_look, after_try_look,
}
use yeetbox.FileDriver.Upload.{head_file_name}
use yeetbox.FileDriver.Entries.{ListEntry, is_reserved, from_io, attributes_of, shown, list_entries}
use yeetbox.FileDriver.Listing.{succeeded, list}

-- The answer has the name.
abbrev pub lists : Bytes → List ListEntry → Bool
lists x [] = false
lists x (e ∷ es) = if bytes_eq e.relative_name x then true else lists x es

shown_name :
    (attrs : Bool) (e : DirEntry) (r : ListEntry)
    → shown attrs e ≡ ok r
    → r.relative_name ≡ e.file_name
unfolding shown
shown_name false e r h = cc h
shown_name true e r h =
    let (m, h1, h2) = >>=-eq-ok (from_io e.metadata) _ h in
    let (attrs, h3, h4) = >>=-eq-ok (attributes_of m) _ h2 in cc h4

same_reserved : (x y : Bytes) → bytes_eq x y ≡ true → is_reserved x ≡ is_reserved y
same_reserved x y h = ap is_reserved ((bytes_eq_iff x y).0 h)

-- The loop shows the names that the directory has and the driver does not reserve.
lists-list_entries :
    (attrs : Bool) (es : List DirEntry) (end : IoResult (Unit {0})) (r : List ListEntry)
    → list_entries attrs es end ≡ ok r
    → (end ≡ done tt) × ((x : Bytes) → lists x r ≡ (has_name x es && not (is_reserved x)))
unfolding list_entries
lists-list_entries attrs [] (done u) r h = (refl, λ x. ground arith)
lists-list_entries attrs [] (failed k) r h = absurd (cc h)
lists-list_entries attrs (e ∷ es) end r h = elim (Bool-cases (from_utf8 e.file_name)) [
  | inr bad ↦ absurd (cc (rw bad at h))
  | inl good ↦ elim (Bool-cases (is_reserved e.file_name)) [
    | inl hidden ↦
        let (ended, names) = lists-list_entries attrs es end r (rw (good, hidden) at h) in
        (ended, λ x. ground (arith, names x, same_reserved e.file_name x, hidden))
    | inr visible ↦
        let (entry, h1, h2) = >>=-eq-ok (shown attrs e) _ (rw (good, visible) at h) in
        let (entries, h3, h4) = >>=-eq-ok (list_entries attrs es end) _ h2 in
        let (ended, names) = lists-list_entries attrs es end entries h3 in
        let same = shown_name attrs e entry h1 in
        let whole : r ≡ entry ∷ entries = cc h4 in
        (
          ended,
          λ x. rw (whole, same) (ground (arith, names x, same_reserved e.file_name x, visible)),
        )
  ]
]

and_iff :
    {A : Type 0} (listed has hidden : Bool)
    → listed ≡ (has && not hidden)
    → (has ≡ false → A)
    → (has ≡ true → A → ⊥)
    → (listed ≡ true) ↔ ((hidden ≡ false) × (A → ⊥))
and_iff listed true true e f g = (λ h. absurd (cc), λ (h, n). absurd (cc h))
and_iff listed true false e f g = (λ h. (refl, g refl), λ h. e)
and_iff listed false hidden e f g = (λ h. absurd (cc), λ (h, n). absurd (n (f refl)))

module _ ⦃H : Host⦄ where
  -- If `list` succeeds below an absolute path, `stat` of the head at the path did not succeed, for
  -- whatever reason, nothing has changed, and the answer has exactly the names of the entries of the
  -- directory that are not `_head`, `_blobs` or `_vers`. This holds whatever `limit`, `skip` and
  -- `folders` of the request are, to which remotefs.proto gives a meaning.
  pub list-shows :
      (req : ListArg) (s t : FileWorld) (r : List ListEntry) (target : RequestedFileId)
      (p : FilePath)
      → req.target ≡ some target
      → target_path s.path target.path ≡ ok p
      → is_rooted p ≡ true
      → list req s ≡ (ok r, t)
      → (succeeded (H.tree.stat (p ++ (head_file_name ∷ [])) s.disk) ≡ false)
        × (t ≡ s)
        × ((x : Bytes)
            → is_name x ≡ true
            → (lists x r ≡ true)
              ↔ ((is_reserved x ≡ false) × (H.tree.entry s.disk (p ++ (x ∷ [])) ≢ none)))
  unfolding list lift
  list-shows req s t r target p e1 e2 rooted = after_require _ s req.target _ λ target' e3.
      after_base _ s (
        after_lift _ s (target_path s.path target'.path) λ p' e4. after_try_look _ s _ (
          after_refuse _ s _ _ λ no_head. after_look _ s _ λ (es, end) e5 e6.
            let same_target : target' ≡ target = cc (e1, e3) in
            let same_p : p' ≡ p = cc (rw same_target at e4, e2) in
            let head = push-name p head_file_name rooted refl in
            let dir = pop-snoc p head_file_name refl in
            let read = rw (same_p, head, dir) at e5 in
            let (ended, names) = lists-list_entries req.attrs es end r (cc e6) in
            let found = rw ended at read in
            (
              rw (same_p, head) at no_head,
              sym (ap (λ (x : Result (List ListEntry) × FileWorld). x.1) e6),
              λ x name.
                  let (missing, there) = H.tree.has_name-read_dir p s.disk found x name in
                  and_iff (lists x r) (has_name x es) (is_reserved x) (names x) missing there,
            )))
