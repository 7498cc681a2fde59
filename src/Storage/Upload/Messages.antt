-- ===== src/Storage/Upload/Messages.antt =====
-- The messages of an upload, and what they leave in the blob
-- (yeetbox-server/src/storage/database.rs).
use yeetbox.Common.{
  ℕ, ◌^◌, ◌<◌, ◌≡◌, refl, sym, ap, ◌∙◌, true, none, some, [], ◌++◌, Bytes, length, ◌⊎◌, take, arith,
  inl, inr,
}
use yeetbox.Status.{ok}
use yeetbox.Env.{Env, WritesWhole, or_empty}
use yeetbox.Env.Sample.{take-length}
use yeetbox.Storage.State.{World}
use yeetbox.Storage.Request.{UploadArg}
use yeetbox.Storage.Upload.{blob_path_of, upload}
use yeetbox.Storage.Upload.Effect.{Collected, upload_incomplete_effect}
use yeetbox.Storage.Upload.Blob.{IsChosen, IsTokenOf-unique, Written}

module _ ⦃E : Env⦄ where
  -- The messages of an upload that is not complete, one after the other: `sent` is their data so
  -- far, and the token goes into the next message.
  pub data Sends (s : World) : World → Bytes → Bytes → Type 0 where
    start : Sends s s [] []
    message :
        {t u : World} {sent token token' : Bytes} (req : UploadArg)
        → Sends s t sent token
        → req.continuation ≡ token
        → req.incomplete ≡ true
        → upload req t ≡ (ok token', u)
        → Sends s u (sent ++ req.contents) token'

  module _ (s : World) where
    -- The blob holds what was sent, and the token leads to it.
    abbrev pub IsCollected : World → Bytes → Bytes → Type 0
    IsCollected t sent token =
        (t.blobs_path ≡ s.blobs_path)
        × (or_empty (E.files.content t.disk (blob_path_of s.blobs_path (E.new_ulid s.tick))) ≡ sent)
        × IsChosen token t (E.new_ulid s.tick)

    -- One more message, the last or not.
    pub Written-more :
        (req : UploadArg) (t : World) (d : E.files.Disk) (ulid : ℕ) (sent : Bytes)
        (a : Written (blob_path_of t.blobs_path ulid) req.contents t.disk d)
        → IsChosen req.continuation t ulid
        → IsCollected t sent req.continuation
        → (ulid ≡ E.new_ulid s.tick)
          × (E.files.content d (blob_path_of s.blobs_path (E.new_ulid s.tick))
              ≡ some (sent ++ take a.taken req.contents))
    Written-more req t d ulid sent a is_chosen (same_base, before, chosen) =
        let same_ulid =
          IsTokenOf-unique (E.new_ulid t.tick) (E.ulid_from_bytes req.continuation) req.continuation
            is_chosen chosen in
        (same_ulid, rw (same_base, same_ulid, before) at a.appended)

    module _ (small : E.new_ulid s.tick < 2 ^ 128)
        (fresh : E.files.content s.disk (blob_path_of s.blobs_path (E.new_ulid s.tick))
          ≡ none) where
      Collected-more :
          (whole : WritesWhole E.files) (req : UploadArg) (t u : World) (sent token : Bytes)
          → Collected req t u token
          → IsCollected t sent req.continuation
          → IsCollected u (sent ++ req.contents) token
      Collected-more whole req t u sent token a collected =
          let (same_ulid, stored) =
            Written-more req t u.disk a.ulid sent a.written a.is_chosen collected in
          let all = whole.whole _ _ _ a.written.written_by in
          (
            a.same_base ∙ collected.0,
            ap or_empty (rw (all, take-length req.contents) at stored),
            inr (
              rw (a.token_given) (E.ulid_to_bytes_length a.ulid),
              sym (rw (a.token_given, same_ulid) (E.ulid_from_bytes-to_bytes _ small)),
            ),
          )

      pub Sends-IsCollected :
          {t : World} {sent token : Bytes}
          → (token ≡ []) ⊎ WritesWhole E.files
          → Sends s t sent token
          → IsCollected t sent token
      Sends-IsCollected how start = (refl, ap or_empty fresh, inl (refl, refl))
      Sends-IsCollected how (message {t} {u} {sent} {token} {token'} req before e1 e2 run) =
          let a = upload_incomplete_effect req t u token' e2 run in
          elim how [
            | inl empty ↦
                let long : length token' ≡ 16 =
                  rw (a.token_given) (E.ulid_to_bytes_length a.ulid) in
                absurd (omega (arith, ap length empty, long))
            | inr whole ↦
                Collected-more whole req t u sent token' a
                  (rw (← e1) at (Sends-IsCollected (inr whole) before))
          ]
