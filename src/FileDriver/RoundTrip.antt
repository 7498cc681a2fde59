-- ===== src/FileDriver/RoundTrip.antt =====
-- What was uploaded, in one message or several, is what is downloaded
-- (yeetbox-server/src/storage/file.rs).
use yeetbox.Common.{
  ℕ, ◌^◌, ◌<◌, ◌≡◌, refl, sym, ap, ◌∙◌, true, false, Option, none, some, List, [], ◌∷◌, ◌++◌, Bytes,
  length, take, drop, inl, inr,
}
use yeetbox.Status.{ok}
use yeetbox.Env.Sample.{take-length}
use yeetbox.Storage.Request.{UploadArg, FileVersion, DownloadArg, DownloadResult}
use yeetbox.Storage.Upload.Blob.{IsTokenOf-unique}
use yeetbox.FileDriver.Paths.{FilePath, is_rooted, leads_up, target_path}
use yeetbox.FileDriver.Paths.Names.{push-name, is_rooted-append}
use yeetbox.FileDriver.Host.{Host, file, appendable, WritesWhole}
use yeetbox.FileDriver.State.{FileWorld}
use yeetbox.FileDriver.Inversion.{after_lift, after_require, after_base, after_look, at_return}
use yeetbox.FileDriver.Upload.{head_file_name, major_version_1, minor_version_0, upload}
use yeetbox.FileDriver.Upload.Received.{
  Received, received, Received-blob, blob_path_of, pushed_blob_path, IsChosen,
}
use yeetbox.FileDriver.Upload.Publish.{IsPublished, first_path, head_path_of, finish_first}
use yeetbox.FileDriver.Download.{version_path, download}

module _ ⦃H : Host⦄ where
  -- The messages of an upload that is not complete, one after the other: `sent` is their data so
  -- far, and the token goes into the next message.
  pub data Sends (strs : List Bytes) (s : FileWorld) : FileWorld → Bytes → Bytes → Type 0 where
    start : Sends strs s s [] []
    message :
        {t u : FileWorld} {sent token token' : Bytes} (req : UploadArg)
        (version : Option FileVersion)
        → Sends strs s t sent token
        → req.target ≡ some (record { path = strs; version = version })
        → req.continuation ≡ token
        → req.incomplete ≡ true
        → upload req t ≡ (ok token', u)
        → Sends strs s u (sent ++ req.contents) token'

  module _ (whole : WritesWhole H) (strs : List Bytes) (p : FilePath) (rooted : is_rooted p ≡ true)
      (down : leads_up p ≡ false) (base : FilePath) (to_p : target_path base strs ≡ ok p)
      (ulid : ℕ) where
    -- The blob holds what was sent, and the token leads to it.
    abbrev IsCollected : FileWorld → Bytes → Bytes → Type 0
    IsCollected t sent token =
        (t.path ≡ base)
        × (appendable (H.tree.entry t.disk (blob_path_of p ulid)) ≡ some sent)
        × IsChosen token t ulid

    -- One more message, the last or not.
    Received-more :
        (req : UploadArg) (version : Option FileVersion) (t u : FileWorld) (sent token : Bytes)
        (a : Received req t u token)
        → req.target ≡ some (record { path = strs; version = version })
        → IsCollected t sent req.continuation
        → (a.p ≡ p)
          × (a.ulid ≡ ulid)
          × (H.tree.entry a.world.disk (blob_path_of p ulid) ≡ some (file (sent ++ req.contents)))
    Received-more req version t u sent token a e (same_base, before, chosen) =
        let same_target : a.target ≡ record { path = strs; version = version } =
          cc (a.target_given, e) in
        let same_p : a.p ≡ p = cc (rw (same_target, same_base) at a.path_given, to_p) in
        let same_ulid =
          IsTokenOf-unique (H.new_ulid t.tick) (H.ulid_from_bytes req.continuation) req.continuation
            a.is_chosen chosen in
        let all : a.taken ≡ length req.contents = whole.whole _ _ _ a.written_by in
        let stored =
          Received-blob p rooted req t u token a same_p down (rw (← same_ulid) at before) in
        (same_p, same_ulid, rw (same_ulid, all, take-length req.contents) at stored)

    -- The last message.
    finished :
        (req : UploadArg) (version : Option FileVersion) (t u : FileWorld) (sent token : Bytes)
        → req.target ≡ some (record { path = strs; version = version })
        → req.incomplete ≡ false
        → req.next ≡ false
        → IsCollected t sent req.continuation
        → upload req t ≡ (ok token, u)
        → IsPublished (first_path p) (head_path_of p) (sent ++ req.contents) u × (u.path ≡ base)
    finished req version t u sent token e1 e2 e3 collected run =
        let a = received req t u token run in
        let (same_p, same_ulid, stored) = Received-more req version t u sent token a e1 collected in
        let rest = rw (e2, e3, same_p, same_ulid, pushed_blob_path p rooted ulid) at a.rest in
        let (published, same_path, _) = finish_first p rooted ulid a.world u token _ rest stored in
        (published, same_path ∙ a.same_path ∙ collected.0)

    module _ (small : ulid < 2 ^ 128) (s : FileWorld) (at_base : s.path ≡ base)
        (fresh : H.tree.entry s.disk (blob_path_of p ulid) ≡ none)
        (new : ulid ≡ H.new_ulid s.tick) where
      Sends-IsCollected :
          {t : FileWorld} {sent token : Bytes}
          → Sends strs s t sent token
          → IsCollected t sent token
      Sends-IsCollected start = (at_base, ap appendable fresh, inl (refl, new))
      Sends-IsCollected (message {t} {u} {sent} {token} {token'} req version before e1 e2 e3 run) =
          let collected = Sends-IsCollected before in
          let a = received req t u token' run in
          let (same_p, same_ulid, stored) =
            Received-more req version t u sent token' a e1 (rw (← e2) at collected) in
          let rest = rw (e3) at a.rest in
          at_return a.world (H.ulid_to_bytes a.ulid)
            (λ e4 e5. (
              ap (λ (w : FileWorld). w.path) (sym e5) ∙ a.same_path ∙ collected.0,
              rw (← e5) (ap appendable stored),
              inr (
                rw (← e4) (H.ulid_to_bytes_length a.ulid),
                sym (rw (← e4, same_ulid) (H.ulid_from_bytes-to_bytes ulid small)),
              ),
            ))
            rest

  -- A download of the latest version reads through the head.
  read_published :
      (req : DownloadArg) (u v : FileWorld) (r : DownloadResult) (strs : List Bytes) (p : FilePath)
      (c : Bytes)
      → req.target ≡ some (record { path = strs; version = none })
      → target_path u.path strs ≡ ok p
      → is_rooted p ≡ true
      → IsPublished (first_path p) (head_path_of p) c u
      → download req u ≡ (ok r, v)
      → r.contents ≡ take (length r.contents) (drop req.offset c)
  unfolding download version_path
  read_published req u v r strs p c e1 e2 rooted (stored, linked) =
      after_require _ u req.target _ λ target e3. after_base _ u (
        after_lift _ u (target_path u.path target.path) λ q e4. after_look _ u _ λ opened e5.
          after_look _ u _ λ contents e6. at_return u _ λ e7 e8.
            let e9 : target ≡ record { path = strs; version = none } = cc (e1, e3) in
            let same_q : q ≡ p = cc (rw e9 at e4, e2) in
            let head = push-name p head_file_name rooted refl in
            let read = rw (e9, same_q, head) at e6 in
            let first_rooted =
              is_rooted-append (p ++ (major_version_1 ∷ [])) (minor_version_0 ∷ [])
                (is_rooted-append p (major_version_1 ∷ []) rooted) in
            let part = H.tree.read_link_part _ _ _ _ _ read linked first_rooted stored in
            let same : contents ≡ r.contents = ap (λ (x : DownloadResult). x.contents) e7 in
            rw (← same) part.1)

  -- After an upload of the first version, in one message or several that follow one another, a
  -- successful download of the latest version gives the data of all the messages from the offset
  -- on, or a beginning of them: if writes take all of their data, the path is absolute and does not
  -- lead up, and the ULID is below 2 ^ 128 and names no blob yet.
  pub download-uploads :
      WritesWhole H
      → (strs : List Bytes) (p : FilePath) (s t u v : FileWorld) (sent token token' : Bytes)
        (last : UploadArg) (version : Option FileVersion) (req : DownloadArg) (r : DownloadResult)
      → is_rooted p ≡ true
      → leads_up p ≡ false
      → target_path s.path strs ≡ ok p
      → H.new_ulid s.tick < 2 ^ 128
      → H.tree.entry s.disk (blob_path_of p (H.new_ulid s.tick)) ≡ none
      → Sends strs s t sent token
      → last.target ≡ some (record { path = strs; version = version })
      → last.continuation ≡ token
      → last.incomplete ≡ false
      → last.next ≡ false
      → upload last t ≡ (ok token', u)
      → req.target ≡ some (record { path = strs; version = none })
      → download req u ≡ (ok r, v)
      → r.contents ≡ take (length r.contents) (drop req.offset (sent ++ last.contents))
  download-uploads whole strs p s t u v sent token token' last version req r rooted down to_p small
        fresh sends e1 e2 e3 e4 uploaded e5 downloaded =
      let collected =
        Sends-IsCollected whole strs p rooted down s.path to_p (H.new_ulid s.tick) small s refl
          fresh refl sends in
      let (published, same_base) =
        finished whole strs p rooted down s.path to_p (H.new_ulid s.tick) last version t u sent
          token' e1 e3 e4 (rw (← e2) at collected) uploaded in
      read_published req u v r strs p (sent ++ last.contents) e5 (rw (← same_base) at to_p) rooted
        published downloaded
