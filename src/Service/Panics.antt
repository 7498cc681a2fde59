-- ===== src/Service/Panics.antt =====
-- Which requests end in a panic (yeetbox-server/src/service.rs).
use yeetbox.Common.{◌≡◌, ◌≢◌, ◌↔◌, refl, Bool, true, false, Bool-cases, inl, inr, List}
use yeetbox.Status.{panicked}
use yeetbox.Env.{Env, HasClock}
use yeetbox.Storage.State.{World, lift, new_storage}
use yeetbox.Storage.WellFormed.{IsWellFormed}
use yeetbox.Storage.Safety.{then_pure_calm}
use yeetbox.Storage.Safety.Making.{make_directory_calm, upload_calm}
use yeetbox.Storage.Safety.Using.{
  append_calm, download_calm, delete_calm, list_calm, move_calm, copy_calm,
}
use yeetbox.Service.{Request, unimplemented, handle, serve}
use yeetbox.Service.Runs.{serve-new_storage}

-- Whether a method of the service does more than panic.
abbrev pub is_implemented : Request → Bool
is_implemented (Request.make_directory req) = true
is_implemented (Request.upload req) = true
is_implemented (Request.append req) = true
is_implemented (Request.download req) = true
is_implemented (Request.delete req) = true
is_implemented (Request.list req) = true
is_implemented (Request.move req) = true
is_implemented (Request.copy req) = true
is_implemented _ = false

module _ ⦃E : Env⦄ where
  unimplemented_panics : (s : World) → (unimplemented s).0 ≡ panicked
  unfolding unimplemented lift
  unimplemented_panics s = refl

  pub handle_calm :
      (r : Request) (s : World)
      → HasClock E
      → E.overflow_checks ≡ false
      → is_implemented r ≡ true
      → IsWellFormed s.db
      → (handle r s).0 ≢ panicked
  unfolding handle
  handle_calm (Request.make_directory req) s clock unchecked i wf =
      then_pure_calm _ _ s (make_directory_calm clock req s)
  handle_calm (Request.upload req) s clock unchecked i wf =
      then_pure_calm _ _ s (upload_calm clock req s wf)
  handle_calm (Request.append req) s clock unchecked i wf =
      then_pure_calm _ _ s (append_calm clock req s wf)
  handle_calm (Request.download req) s clock unchecked i wf =
      then_pure_calm _ _ s (download_calm clock req s unchecked wf)
  handle_calm (Request.delete req) s clock unchecked i wf =
      then_pure_calm _ _ s (delete_calm clock req s wf)
  handle_calm (Request.list req) s clock unchecked i wf =
      then_pure_calm _ _ s (list_calm clock req s)
  handle_calm (Request.move req) s clock unchecked i wf =
      then_pure_calm _ _ s (move_calm clock req s wf)
  handle_calm (Request.copy req) s clock unchecked i wf =
      then_pure_calm _ _ s (copy_calm clock req s wf)
  handle_calm _ s clock unchecked i wf = absurd (cc i)

  handle_panics : (r : Request) (s : World) → is_implemented r ≡ false → (handle r s).0 ≡ panicked
  unfolding handle
  handle_panics (Request.make_directory req) s i = absurd (cc i)
  handle_panics (Request.upload req) s i = absurd (cc i)
  handle_panics (Request.append req) s i = absurd (cc i)
  handle_panics (Request.download req) s i = absurd (cc i)
  handle_panics (Request.delete req) s i = absurd (cc i)
  handle_panics (Request.list req) s i = absurd (cc i)
  handle_panics (Request.move req) s i = absurd (cc i)
  handle_panics (Request.copy req) s i = absurd (cc i)
  handle_panics _ s i = unimplemented_panics s

  -- In a build without overflow checks, and with a clock that is never before the Unix epoch: after
  -- any requests to a new server, whatever calls of the environment fail, the next request panics
  -- exactly if the service does not implement its method.
  pub handle-panicked_iff :
      HasClock E
      → E.overflow_checks ≡ false
      → (rs : List Request) (disk : E.files.Disk) (r : Request)
      → ((handle r (serve rs (new_storage disk)).1).0 ≡ panicked) ↔ (is_implemented r ≡ false)
  handle-panicked_iff clock unchecked rs disk r = (
    (λ h. elim (Bool-cases (is_implemented r)) [
      | inl i ↦ absurd (handle_calm r _ clock unchecked i (serve-new_storage rs disk) h)
      | inr i ↦ i
    ]),
    handle_panics r _,
  )
