-- ===== src/Authz.antt =====
-- The authorizer (yeetbox-server/src/authz/mod.rs, yeetbox-server/src/authz/simple.rs). Its methods
-- do not read their requests.
pub mod Anonymous
use yeetbox.Common.{Bool, true, not, Bytes, bytes_eq}
use yeetbox.Status.{Result, ok, panicked}
use yeetbox.Authn.{Session, anonymous}

-- The operations of the service, one for each method `is_authz_…`.
pub data Operation : Type 0 where
  watch_many make_directory upload append patch download delete list move copy : Operation
  list_incomplete_uploads get_presigned_download get_presigned_upload watch_once : Operation
  get_attributes set_attributes delete_many get_service_info get_audit_trail : Operation
  start_transaction commit_transaction abort_transaction create_link unlink : Operation

-- Trait `Authorizer`, and its methods as an implementation may leave them.
abbrev pub Authorizer : Type 0 → Type 0
Authorizer DateTime = Operation → Session DateTime → Result Bool

module _ {DateTime : Type 0} where
  unfoldable pub default_authorizer : Authorizer DateTime
  default_authorizer op session = panicked

  -- `Ok(session.auth_mech != "ANONYMOUS")`
  abbrev pub named_only : Session DateTime → Result Bool
  named_only session = ok (not (bytes_eq session.auth_mech anonymous))

  unfoldable pub simple_authz : Authorizer DateTime
  simple_authz Operation.watch_many session = named_only session
  simple_authz Operation.make_directory session = named_only session
  simple_authz Operation.upload session = named_only session
  simple_authz Operation.append session = named_only session
  simple_authz Operation.patch session = named_only session
  simple_authz Operation.download session = ok true
  simple_authz Operation.delete session = named_only session
  simple_authz Operation.list session = ok true
  simple_authz Operation.move session = named_only session
  simple_authz Operation.copy session = named_only session
  simple_authz Operation.list_incomplete_uploads session = named_only session
  simple_authz Operation.get_presigned_download session = named_only session
  simple_authz Operation.get_presigned_upload session = named_only session
  simple_authz Operation.watch_once session = named_only session
  simple_authz Operation.get_attributes session = ok true
  simple_authz Operation.set_attributes session = named_only session
  simple_authz Operation.delete_many session = panicked
  simple_authz Operation.get_service_info session = ok true
  simple_authz Operation.get_audit_trail session = named_only session
  simple_authz Operation.start_transaction session = named_only session
  simple_authz Operation.commit_transaction session = named_only session
  simple_authz Operation.abort_transaction session = named_only session
  simple_authz Operation.create_link session = named_only session
  simple_authz Operation.unlink session = named_only session
