-- ===== src/Authz/Anonymous.antt =====
-- What the authorizer lets an anonymous session do (yeetbox-server/src/authz/simple.rs), against
-- what the storage driver does for the operation.
use yeetbox.Common.{◌≡◌, ◌≢◌, refl, Bool, true, false, Option, none, some}
use yeetbox.Status.{ok}
use yeetbox.Env.{Env}
use yeetbox.Storage.Keeps.{Leaves, Leaves-pure, Leaves-bind}
use yeetbox.Storage.Atomicity.{append-Leaves, download-Leaves, list-Leaves}
use yeetbox.Authn.{Session, anonymous}
use yeetbox.Authz.{Operation, named_only, simple_authz}
use yeetbox.Service.{Request, handle}
use yeetbox.Service.Runs.{unimplemented-Leaves}

-- The operation that a request of the service asks for; authentication comes before any.
abbrev pub operation_of : Request → Option Operation
operation_of Request.get_available_sasl_mechanisms = none
operation_of Request.authenticate = none
operation_of Request.watch_many = some Operation.watch_many
operation_of (Request.make_directory req) = some Operation.make_directory
operation_of (Request.upload req) = some Operation.upload
operation_of (Request.append req) = some Operation.append
operation_of Request.patch = some Operation.patch
operation_of (Request.download req) = some Operation.download
operation_of (Request.delete req) = some Operation.delete
operation_of (Request.list req) = some Operation.list
operation_of (Request.move req) = some Operation.move
operation_of (Request.copy req) = some Operation.copy
operation_of Request.list_incomplete_uploads = some Operation.list_incomplete_uploads
operation_of Request.get_presigned_download = some Operation.get_presigned_download
operation_of Request.get_presigned_upload = some Operation.get_presigned_upload
operation_of Request.watch_once = some Operation.watch_once
operation_of Request.get_attributes = some Operation.get_attributes
operation_of Request.set_attributes = some Operation.set_attributes
operation_of Request.delete_many = some Operation.delete_many
operation_of Request.get_service_info = some Operation.get_service_info
operation_of Request.get_audit_trail = some Operation.get_audit_trail
operation_of Request.start_transaction = some Operation.start_transaction
operation_of Request.commit_transaction = some Operation.commit_transaction
operation_of Request.abort_transaction = some Operation.abort_transaction
operation_of Request.create_link = some Operation.create_link
operation_of Request.unlink = some Operation.unlink

-- The operations that an anonymous session is allowed.
abbrev is_public : Operation → Bool
is_public Operation.download = true
is_public Operation.list = true
is_public Operation.get_attributes = true
is_public Operation.get_service_info = true
is_public _ = false

module _ {DateTime : Type 0} where
  anonymous_refused :
      (session : Session DateTime) → session.auth_mech ≡ anonymous → named_only session ≢ ok true
  anonymous_refused session e h = absurd (cc (rw e at h))

  allowed-is_public :
      (op : Operation) (session : Session DateTime)
      → session.auth_mech ≡ anonymous
      → simple_authz op session ≡ ok true
      → is_public op ≡ true
  unfolding simple_authz
  allowed-is_public Operation.download session e h = refl
  allowed-is_public Operation.list session e h = refl
  allowed-is_public Operation.get_attributes session e h = refl
  allowed-is_public Operation.get_service_info session e h = refl
  allowed-is_public Operation.delete_many session e h = absurd (cc h)
  allowed-is_public _ session e h = absurd (anonymous_refused session e h)

not_public :
    (asked op : Operation) → some asked ≡ some op → is_public asked ≡ false → is_public op ≢ true
not_public asked op e closed h = let same : asked ≡ op = cc in cc (rw same at closed)

module _ ⦃E : Env⦄ where
  public-Leaves :
      (r : Request) (op : Operation)
      → operation_of r ≡ some op
      → is_public op ≡ true
      → Leaves (handle r)
  unfolding handle
  public-Leaves (Request.download req) op e h =
      Leaves-bind _ _ (download-Leaves req) λ _. Leaves-pure _
  public-Leaves (Request.list req) op e h = Leaves-bind _ _ (list-Leaves req) λ _. Leaves-pure _
  public-Leaves (Request.append req) op e h = Leaves-bind _ _ (append-Leaves req) λ _. Leaves-pure _
  public-Leaves (Request.make_directory req) op e h = absurd (not_public _ op e refl h)
  public-Leaves (Request.upload req) op e h = absurd (not_public _ op e refl h)
  public-Leaves (Request.delete req) op e h = absurd (not_public _ op e refl h)
  public-Leaves (Request.move req) op e h = absurd (not_public _ op e refl h)
  public-Leaves (Request.copy req) op e h = absurd (not_public _ op e refl h)
  public-Leaves _ op e h = unimplemented-Leaves

  -- A request whose operation the simple authorizer allows to an ANONYMOUS session leaves the
  -- database as it was.
  pub anonymous-Leaves :
      {DateTime : Type 0} (r : Request) (op : Operation) (session : Session DateTime)
      → operation_of r ≡ some op
      → session.auth_mech ≡ anonymous
      → simple_authz op session ≡ ok true
      → Leaves (handle r)
  anonymous-Leaves r op session e1 e2 e3 =
      public-Leaves r op e1 (allowed-is_public op session e2 e3)
