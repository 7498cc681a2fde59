-- ===== src/Service/Runs.antt =====
-- What any request, and any run of requests, leaves of the database (yeetbox-server/src/service.rs).
use yeetbox.Common.{◌≡◌, ◌⊎◌, inl, inr, sym, subst, refl, arith, List, [], ◌∷◌, Bool-cases, Bytes}
use yeetbox.Env.{Env}
use yeetbox.Status.{Result, ok, err, panicked}
use yeetbox.Text.{trim}
use yeetbox.Storage.State.{World, Action, pure, ◌>>=◌, new_storage}
use yeetbox.Storage.Keeps.{
  IsOk, IsAtomic, Leaves, atomic_rules, leaves_rules, Leaves-pure, Leaves-bind, IsAtomic-Leaves,
  IsAtomic-then_return,
}
use yeetbox.Storage.Atomicity.{
  make_directory-IsAtomic, upload-IsAtomic, append-Leaves, download-Leaves, delete-IsAtomic,
  list-Leaves, move-IsAtomic, copy-IsAtomic,
}
use yeetbox.Storage.WellFormed.{
  IsWellFormed, new_storage-IsWellFormed, Made-IsWellFormed, Recorded-IsWellFormed,
  Removed-IsWellFormed, Rekeyed-IsWellFormed, Added-IsWellFormed,
}
use yeetbox.Storage.MakeDirectory.Effect.{make_directory_effect}
use yeetbox.Storage.Request.{UploadArg}
use yeetbox.Storage.Upload.{upload}
use yeetbox.Storage.Upload.Effect.{upload_effect, upload_incomplete_effect}
use yeetbox.Storage.Delete.Effect.{delete_effect}
use yeetbox.Storage.Move.Effect.{move_effect}
use yeetbox.Storage.Copy.Effect.{copy_effect}
use yeetbox.Service.{Request, unimplemented, handle, serve}

Result-cases : {A : Type 0} (r : Result A) → ((a : A) × (r ≡ ok a)) ⊎ (IsOk r → ⊥)
Result-cases (ok a) = inl (a, refl)
Result-cases (err e) = inr (λ x. x)
Result-cases panicked = inr (λ x. x)

module _ ⦃E : Env⦄ where
  pub unimplemented-Leaves : Leaves unimplemented
  unfolding unimplemented
  unimplemented-Leaves = search leaves_rules

  ruleset handle_rules = (
    atomic_rules, IsAtomic-Leaves, make_directory-IsAtomic, upload-IsAtomic, append-Leaves,
    download-Leaves, delete-IsAtomic, list-Leaves, move-IsAtomic, copy-IsAtomic,
    unimplemented-Leaves,
  )

  -- Every request either succeeds or leaves the database as it was.
  pub handle-IsAtomic : (r : Request) → IsAtomic (handle r)
  unfolding handle
  handle-IsAtomic (Request.make_directory req) = search handle_rules depth 6
  handle-IsAtomic (Request.upload req) = IsAtomic-then_return _ _ (upload-IsAtomic req)
  handle-IsAtomic (Request.append req) = search handle_rules depth 6
  handle-IsAtomic (Request.download req) = search handle_rules depth 6
  handle-IsAtomic (Request.delete req) = IsAtomic-then_return _ _ (delete-IsAtomic req)
  handle-IsAtomic (Request.list req) = search handle_rules depth 6
  handle-IsAtomic (Request.move req) = search handle_rules depth 6
  handle-IsAtomic (Request.copy req) = search handle_rules depth 6
  handle-IsAtomic _ = IsAtomic-Leaves unimplemented-Leaves

  -- An atomic operation, whose successes keep a database well-formed, does so whatever happens.
  returning :
      {A B : Type 0} (m : Action A) (g : A → B) (s : World)
      → IsAtomic m
      → IsWellFormed s.db
      → ((a : A) (s' : World) → m s ≡ (ok a, s') → IsWellFormed s'.db)
      → IsWellFormed ((m >>= λ a. pure (g a)) s).1.db
  unfolding ◌>>=◌
  returning {A} {B} m g s atomic before after =
      subst (λ (t : World). IsWellFormed t.db) (sym same_world) here
    where
      same_world : ((m >>= λ a. pure (g a)) s).1 ≡ (m s).1
      same_world = ground arith

      here : IsWellFormed (m s).1.db
      here = elim (Result-cases (m s).0) [
        | inl (a, e) ↦ after a (m s).1 (λ i. (e i, (m s).1))
        | inr failed ↦ elim (atomic.at s) [
          | inl o ↦ absurd (failed o)
          | inr same ↦ subst IsWellFormed (sym same.same_db) before
        ]
      ]

  keeping :
      {A : Type 0} {m : Action A} (s : World)
      → Leaves m
      → IsWellFormed s.db
      → IsWellFormed (m s).1.db
  keeping s l before = subst IsWellFormed (sym (l.at s).same_db) before

  upload-IsWellFormed :
      (req : UploadArg) (s s' : World) (token : Bytes)
      → IsWellFormed s.db
      → upload req s ≡ (ok token, s')
      → IsWellFormed s'.db
  upload-IsWellFormed req s s' token wf e = elim (Bool-cases req.incomplete) [
    | inl more ↦
        subst IsWellFormed (sym (upload_incomplete_effect req s s' token more e).same_db) wf
    | inr complete ↦
        Recorded-IsWellFormed s.db s'.db wf _ _ (upload_effect req s s' token complete e).recorded
  ]

  -- Every request leaves a well-formed database well-formed, whatever its outcome.
  pub handle-IsWellFormed :
      (r : Request) (s : World) → IsWellFormed s.db → IsWellFormed (handle r s).1.db
  unfolding handle
  handle-IsWellFormed (Request.make_directory req) s wf =
      returning _ _ s (make_directory-IsAtomic req) wf λ u s' e.
        let d = make_directory_effect req s s' e in
        Made-IsWellFormed s.db s'.db wf d.parent_id (trim d.name) _ d.stored d.same_ver
  handle-IsWellFormed (Request.upload req) s wf =
      returning _ _ s (upload-IsAtomic req) wf λ token s' e. upload-IsWellFormed req s s' token wf e
  handle-IsWellFormed (Request.append req) s wf =
      keeping s (Leaves-bind _ _ (append-Leaves req) λ _. Leaves-pure _) wf
  handle-IsWellFormed (Request.download req) s wf =
      keeping s (Leaves-bind _ _ (download-Leaves req) λ _. Leaves-pure _) wf
  handle-IsWellFormed (Request.list req) s wf =
      keeping s (Leaves-bind _ _ (list-Leaves req) λ _. Leaves-pure _) wf
  handle-IsWellFormed (Request.delete req) s wf =
      returning _ _ s (delete-IsAtomic req) wf λ shredded s' e.
        let d = delete_effect req s s' shredded e in
        Removed-IsWellFormed s.db s'.db wf d.file _ _ d.removed
  handle-IsWellFormed (Request.move req) s wf = returning _ _ s (move-IsAtomic req) wf λ u s' e.
      let d = move_effect req s s' e in
      Rekeyed-IsWellFormed s.db s'.db wf _ d.dest_id d.dest_name _ d.rekeyed
  handle-IsWellFormed (Request.copy req) s wf = returning _ _ s (copy-IsAtomic req) wf λ u s' e.
      let d = copy_effect req s s' e in
      Added-IsWellFormed s.db s'.db wf d.dest_id d.dest_name d.added
  handle-IsWellFormed _ s wf = keeping s unimplemented-Leaves wf

  serve-IsWellFormed :
      (rs : List Request) (s : World) → IsWellFormed s.db → IsWellFormed (serve rs s).1.db
  unfolding serve
  serve-IsWellFormed [] s wf = wf
  serve-IsWellFormed (r ∷ rs) s wf =
      serve-IsWellFormed rs (handle r s).1 (handle-IsWellFormed r s wf)

  -- After any requests to a new server, every stored record and version is at least as long as its
  -- fixed part, and every key of the file system table has the eight bytes of an id and then the
  -- normal form of the name that is stored behind the record.
  pub serve-new_storage :
      (rs : List Request) (disk : E.files.Disk) → IsWellFormed (serve rs (new_storage disk)).1.db
  serve-new_storage rs disk =
      serve-IsWellFormed rs (new_storage disk) (new_storage-IsWellFormed disk)
