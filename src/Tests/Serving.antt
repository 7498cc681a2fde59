-- ===== src/Tests/Serving.antt =====
-- Requests to the service, and attempts to authenticate.
use yeetbox.Common.{◌≡◌, ◌↔◌, refl, true, false, none, List, [], ◌∷◌}
use yeetbox.Status.{ok, panicked}
use yeetbox.Env.Sample.{sample_env}
use yeetbox.Tests.Progress.{sample-HasClock}
use yeetbox.Storage.State.{new_storage, codes}
use yeetbox.Storage.Keeps.{IsAtomic, Leaves}
use yeetbox.Storage.WellFormed.{IsWellFormed}
use yeetbox.Service.{Request, handle, serve}
use yeetbox.Service.Runs.{handle-IsAtomic, serve-new_storage}
use yeetbox.Service.Panics.{is_implemented, handle-panicked_iff}
use yeetbox.Authn.{
  Session, SimpleAuth, AuthenticateArg, decided, accept, v4, anonymous, plain, attempt_authn,
}
use yeetbox.Authn.Plain.{IsAccepted, attempt_authn-accept_iff}
use yeetbox.Authz.{Operation, simple_authz}
use yeetbox.Authz.Anonymous.{anonymous-Leaves}
use yeetbox.Tests.{mkdir, upload_b, download_b, list_root}

abbrev requests : List Request
requests =
    Request.make_directory (mkdir (codes "a"))
    ∷ Request.upload upload_b
    ∷ Request.patch
    ∷ Request.list list_root
    ∷ []

handle-panicked_iff_example :
    ((handle Request.patch (serve requests (new_storage [])).1).0 ≡ panicked)
    ↔ (is_implemented Request.patch ≡ false)
handle-panicked_iff_example = handle-panicked_iff sample-HasClock refl requests [] Request.patch

serve-new_storage_example : IsWellFormed (serve requests (new_storage [])).1.db
serve-new_storage_example = serve-new_storage requests []

handle-IsAtomic_example : IsAtomic (handle (Request.upload upload_b))
handle-IsAtomic_example = handle-IsAtomic (Request.upload upload_b)

abbrev users : SimpleAuth Unit
users = record { authenticated_peers = []; db = (codes "ann", codes "pw") ∷ [] }

abbrev proof_of_ann : AuthenticateArg
proof_of_ann = record { mechanism = plain; assertion = 0 ∷ 97 ∷ 110 ∷ 110 ∷ 0 ∷ 112 ∷ 119 ∷ [] }

proof_accepted : attempt_authn users proof_of_ann ≡ decided accept
unfolding attempt_authn
proof_accepted = refl

attempt_authn-accept_iff_example :
    (attempt_authn users proof_of_ann ≡ decided accept) ↔ IsAccepted users.db proof_of_ann
attempt_authn-accept_iff_example = attempt_authn-accept_iff users proof_of_ann

abbrev guest : Session Unit
guest = record {
  user_id = none;
  auth_mech = anonymous;
  start_time = tt;
  peer_ip = v4 (127 ∷ 0 ∷ 0 ∷ 1 ∷ []);
  peer_port = 4000;
}

download_allowed : simple_authz Operation.download guest ≡ ok true
unfolding simple_authz
download_allowed = refl

anonymous-Leaves_example : Leaves (handle (Request.download download_b))
anonymous-Leaves_example =
    anonymous-Leaves (Request.download download_b) Operation.download guest refl refl
      download_allowed
