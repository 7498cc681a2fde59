-- ===== src/Authn.antt =====
-- The authenticator (yeetbox-server/src/authn.rs). A `String` is its bytes; the date of a session
-- is of a type of crate chrono, and a parameter.
pub mod Plain
use yeetbox.Common.{
  ℕ, zero, suc, Bool, true, false, not, ◌&&◌, Option, none, some, List, [], ◌∷◌, Bytes, bytes_eq,
  length, ltb, leb, ◌==◌, if◌then◌else◌,
}
use yeetbox.Env.{assoc}
use yeetbox.Storage.State.{codes}

-- `std::net::IpAddr`, by its octets.
pub data IpAddr : Type 0 where
  v4 v6 : Bytes → IpAddr

abbrev pub same_ip : IpAddr → IpAddr → Bool
same_ip (v4 a) (v4 b) = bytes_eq a b
same_ip (v6 a) (v6 b) = bytes_eq a b
same_ip (v4 a) (v6 b) = false
same_ip (v6 a) (v4 b) = false

pub record Session (DateTime : Type 0) : Type 0 where
  pub user_id : Option Bytes
  pub auth_mech : Bytes
  pub start_time : DateTime
  pub peer_ip : IpAddr
  pub peer_port : ℕ

pub record AuthenticateArg : Type 0 where
  pub mechanism : Bytes
  pub assertion : Bytes

pub record AuthenticateResult : Type 0 where
  pub decision : Option Bool
  pub all_auth_disabled : Bool
  pub user_disabled : Bool

abbrev pub reject : AuthenticateResult
reject = record { decision = some false; all_auth_disabled = false; user_disabled = false }

abbrev pub accept : AuthenticateResult
accept = record { decision = some true; all_auth_disabled = false; user_disabled = false }

-- `anyhow::Result<AuthenticateResult>`, whose only error is that of `std::str::from_utf8`.
pub data Attempt : Type 0 where
  decided : AuthenticateResult → Attempt
  utf8_error : Attempt

pub record SimpleAuth (DateTime : Type 0) : Type 0 where
  pub authenticated_peers : List ((IpAddr × ℕ) × Session DateTime)
  pub db : List (Bytes × Bytes)

abbrev pub anonymous : Bytes
anonymous = codes "ANONYMOUS"

abbrev pub plain : Bytes
plain = codes "PLAIN"

abbrev pub get_auth_mechs : List Bytes
get_auth_mechs = anonymous ∷ plain ∷ []

-- Where a byte of a UTF-8 sequence stands: at the start of a character, or with so many bytes to
-- come of which the next is in a range; `std::str::from_utf8` takes what ends at a start.
pub data Utf8State : Type 0 where
  at_start at_error : Utf8State
  to_come : ℕ → ℕ → ℕ → Utf8State

abbrev within : ℕ → ℕ → ℕ → Bool
within lo hi b = leb lo b && leb b hi

abbrev after_first : ℕ → Utf8State
after_first b =
    if ltb b 0x80
    then at_start
    else if within 0xC2 0xDF b
    then to_come 0 0x80 0xBF
    else if b == 0xE0
    then to_come 1 0xA0 0xBF
    else if b == 0xED
    then to_come 1 0x80 0x9F
    else if within 0xE1 0xEF b
    then to_come 1 0x80 0xBF
    else if b == 0xF0
    then to_come 2 0x90 0xBF
    else if within 0xF1 0xF3 b
    then to_come 2 0x80 0xBF
    else if b == 0xF4
    then to_come 2 0x80 0x8F
    else at_error

abbrev utf8_step : Utf8State → ℕ → Utf8State
utf8_step at_start b = after_first b
utf8_step at_error b = at_error
utf8_step (to_come zero lo hi) b = if within lo hi b then at_start else at_error
utf8_step (to_come (suc n) lo hi) b = if within lo hi b then to_come n 0x80 0xBF else at_error

utf8_end : Utf8State → Bytes → Bool
utf8_end at_start [] = true
utf8_end at_error [] = false
utf8_end (to_come n lo hi) [] = false
utf8_end s (b ∷ bs) = utf8_end (utf8_step s b) bs

unfoldable pub from_utf8 : Bytes → Bool
unfolding utf8_end
from_utf8 = utf8_end at_start

-- `assertion.split(|c| *c == b'\0')`: the first part, which there always is, and the others.
abbrev split_at : Bool → ℕ → Bytes × List Bytes → Bytes × List Bytes
split_at true c (part, parts) = ([], part ∷ parts)
split_at false c (part, parts) = (c ∷ part, parts)

abbrev pub split : Bytes → Bytes × List Bytes
split [] = ([], [])
split (c ∷ cs) = split_at (c == 0) c (split cs)

-- `self.db.get(authcid).is_some_and(|pw| pw.as_str() == passwd)`
abbrev pub is_password : List (Bytes × Bytes) → Bytes → Bytes → Bool
is_password db authcid passwd = elim (assoc authcid db) [
  | none ↦ false
  | some pw ↦ bytes_eq pw passwd
]

-- `authzid.len() > 0 && authzid != authcid`
abbrev pub acts_for_another : Bytes → Bytes → Bool
acts_for_another authzid authcid = ltb 0 (length authzid) && not (bytes_eq authzid authcid)

-- The part after the assertion was split.
unfoldable pub check_plain : List (Bytes × Bytes) → Bytes → Bytes → Bytes → Attempt
unfolding from_utf8
check_plain db authzid authcid passwd =
    if acts_for_another authzid authcid
    then decided reject
    else if not (from_utf8 authcid)
    then utf8_error
    else if not (from_utf8 passwd)
    then utf8_error
    else if is_password db authcid passwd
    then decided accept
    else decided reject

-- Two NULs exactly, so three parts.
unfoldable pub check_parts : List (Bytes × Bytes) → Bytes × List Bytes → Attempt
unfolding check_plain
check_parts db (authzid, authcid ∷ passwd ∷ []) = check_plain db authzid authcid passwd
check_parts db (authzid, []) = decided reject
check_parts db (authzid, authcid ∷ []) = decided reject
check_parts db (authzid, authcid ∷ passwd ∷ whatever ∷ rest) = decided reject

module _ {DateTime : Type 0} where
  -- `SimpleAuth::new`
  abbrev pub new : SimpleAuth DateTime
  new = record { authenticated_peers = []; db = [] }

  unfoldable pub attempt_authn : SimpleAuth DateTime → AuthenticateArg → Attempt
  unfolding check_parts
  attempt_authn self arg =
      if bytes_eq arg.mechanism anonymous
      then decided accept
      else if not (bytes_eq arg.mechanism plain)
      then decided reject
      else if ltb 1000 (length arg.assertion)
      then decided reject
      else check_parts self.db (split arg.assertion)

  find_peer : List ((IpAddr × ℕ) × Session DateTime) → IpAddr → ℕ → Option (Session DateTime)
  find_peer [] ip port = none
  find_peer (((ip', port'), session) ∷ peers) ip port =
      if same_ip ip' ip && port' == port then some session else find_peer peers ip port

  pub check_authn : SimpleAuth DateTime → IpAddr → ℕ → Option (Session DateTime)
  unfolding find_peer
  check_authn self peer_ip peer_port = find_peer self.authenticated_peers peer_ip peer_port
