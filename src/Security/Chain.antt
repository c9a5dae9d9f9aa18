-- ===== src/Security/Chain.antt =====
-- `SecurityRules::check_snapshot` and its helpers, `src/security/security_rules.hpp`: the chain of
-- checks that a request passes. The addresses are asio's, the tokens jwt-cpp's; the rate limiter
-- is an interface here, with its state passed through.
pub mod Authenticated
pub mod Passes
pub mod Service
use asio_owen.Prelude.{
  ℕ, Bool, true, false, not, ◌&&◌, ◌||◌, List, [], ◌∷◌, ◌==◌, leb, if◌then◌else◌, Option, some,
  none, Bytes, codes, bytes_eq, is_empty, any, before_byte, Outcome, ok, err,
}
use asio_owen.Security.Path.{PathError, normalize_path}
use asio_owen.Security.Whitelist
use asio_owen.Security.Whitelist.{AuthWhitelist}
use asio_owen.Security.PathRules
use asio_owen.Security.PathRules.{PathBlacklist, Principal}
use asio_owen.Security.Address
use asio_owen.Security.Address.{AddressLib, IpBlacklist, Address}
use asio_owen.Security.Jwt.{JwtLib, JwtAuth, JwtClaims, verify}

pub record Decision : Type 0 where
  pub allowed : Bool
  pub retry_after_ms : ℕ

-- `RateLimiter::check_all` on the address, the path and the service.
pub record Limiter : Type 1 where
  pub State : Type 0
  pub check_all : Bytes → Bytes → Bytes → State → Decision × State

pub record CheckResult : Type 0 where
  pub status_code : ℕ
  pub reason : Bytes
  pub retry_after_ms : ℕ
  pub principal : Option Principal
  pub client_ip : Bytes
  pub jwt_disabled : Bool

pub record Request : Type 0 where
  -- The peer's address, `none` where asking the socket throws.
  pub peer : Option Bytes
  pub method : Bytes
  pub raw_path : Bytes
  pub xff_header : Bytes
  pub auth_header : Bytes

-- A result that carries nothing of the request.
unfoldable pub refuse : ℕ → Bytes → CheckResult
refuse status reason = record {
  status_code = status;
  reason = reason;
  retry_after_ms = 0;
  principal = none;
  client_ip = [];
  jwt_disabled = false;
}

unfoldable pub is_service_byte : ℕ → Bool
is_service_byte c = leb b'a' c && leb c b'z' || leb b'0' c && leb c b'9' || c == b'-'

-- `[a-z][a-z0-9-]*`
unfoldable pub is_valid_service_name : Bytes → Bool
unfolding is_service_byte
is_valid_service_name [] = false
is_valid_service_name (c ∷ rest) =
    leb b'a' c && leb c b'z' && not (any (λ d. not (is_service_byte d)) rest)

-- `/{service}/...`, the empty name if it is not valid.
unfoldable pub extract_service : Bytes → Bytes
unfolding is_valid_service_name before_byte
extract_service [] = []
extract_service (c ∷ rest) =
    let svc = before_byte b'/' rest in
    if not (c == b'/') then [] else if not (is_valid_service_name svc) then [] else svc

unfoldable pub claims_have_role : JwtClaims → Bytes → Bool
claims_have_role claims role = any (λ r. bytes_eq r role) claims.roles

abbrev pub principal_of : JwtClaims → Principal
principal_of c = record { subject = c.subject; username = c.username; roles = c.roles }

abbrev pub have_role : Option JwtClaims → Bytes → Bool
have_role none role = false
have_role (some c) role = claims_have_role c role

module _ (net : AddressLib) (jwt : JwtLib) (limiter : Limiter) where
  open limiter use {State}

  -- `SecuritySnapshot`; the limiter counts if it and its policy are both there.
  pub record Snapshot : Type 0 where
    pub case_sensitive_paths : Bool
    pub trusted_proxies : List Bytes
    pub ip_blacklist : IpBlacklist
    pub auth_whitelist : AuthWhitelist
    pub path_blacklist : PathBlacklist
    pub jwt_auth : Option (JwtAuth jwt)
    pub has_limiter : Bool

  -- Step 8: blocked paths, and the role that the path requires.
  unfoldable pub check_path : Snapshot → Bytes → Bool → Option JwtClaims → CheckResult → CheckResult
  unfolding claims_have_role
  check_path s path is_whitelisted claims result =
      let path_result = PathRules.check s.path_blacklist path in
      if path_result.blocked
      then record result { status_code = 403; reason = codes "path blocked" }
      else if not (is_empty path_result.required_role) && is_whitelisted
      then record result { status_code = 403; reason = codes "role required" }
      else if not (is_empty path_result.required_role)
          && not (have_role claims path_result.required_role)
      then record result { status_code = 403; reason = codes "insufficient role" }
      else result

  unfoldable pub check_claims : Snapshot → Bytes → CheckResult → Option JwtClaims → CheckResult
  unfolding check_path
  check_claims s path result none = record result {
    status_code = 401;
    reason = codes "invalid jwt";
  }
  check_claims s path result (some claims) =
      check_path s path false (some claims)
        (record result { principal = some (principal_of claims) })

  -- Step 7, for a path that is not on the whitelist; no verifier means that JWT is switched off.
  unfoldable pub check_token :
      Snapshot → ℕ → Bytes → Bytes → CheckResult → Option (JwtAuth jwt) → CheckResult
  unfolding check_path check_claims
  check_token s now path auth_header result none = check_path s path false none result
  check_token s now path auth_header result (some auth) =
      check_claims s path result (verify jwt auth now auth_header)

  -- Step 6: the whitelist.
  unfoldable pub authenticate : Snapshot → ℕ → Bytes → Bytes → Bytes → CheckResult → CheckResult
  unfolding check_path check_token
  authenticate s now path service auth_header result =
      if Whitelist.is_whitelisted s.auth_whitelist path service
      then check_path s path true none result
      else check_token s now path auth_header result s.jwt_auth

  abbrev pub has_jwt : Option (JwtAuth jwt) → Bool
  has_jwt none = false
  has_jwt (some _) = true

  -- Step 5.5: a preflight passes here, before authentication.
  unfoldable pub check_allowed : Snapshot → ℕ → Request → Bytes → Bytes → CheckResult → CheckResult
  unfolding authenticate refuse
  check_allowed s now r path service result =
      if bytes_eq r.method (codes "OPTIONS")
      then refuse 0 []
      else authenticate s now path service r.auth_header result

  -- Step 5: the decision of the limiter, if there is one.
  unfoldable pub check_rate :
      Snapshot → ℕ → Request → Bytes → Bytes → CheckResult → Decision × State → CheckResult × State
  unfolding check_allowed
  check_rate s now r path service result (decision, state) =
      if decision.allowed then (check_allowed s now r path service result, state) else (
        record result {
          status_code = 429;
          reason = codes "too many requests";
          retry_after_ms = decision.retry_after_ms;
        },
        state,
      )

  -- Steps 3 to 5: the service, blocked addresses, the rate limit.
  unfoldable pub check_client : Snapshot → ℕ → Request → Bytes → Bytes → State → CheckResult × State
  unfolding check_rate extract_service
  check_client s now r normalized_ip path state =
      let service = extract_service path in
      let result : CheckResult = record {
        status_code = 0;
        reason = [];
        retry_after_ms = 0;
        principal = none;
        client_ip = normalized_ip;
        jwt_disabled = not (has_jwt s.jwt_auth);
      } in
      if Address.is_blocked net s.ip_blacklist normalized_ip
      then (record result { status_code = 403; reason = codes "ip blocked" }, state)
      else if s.has_limiter
      then check_rate s now r path service result
          (limiter.check_all normalized_ip path service state)
      else (check_allowed s now r path service result, state)

  unfoldable pub check_decoded :
      Snapshot → ℕ → Request → Bytes → Outcome PathError Bytes → State → CheckResult × State
  unfolding check_client refuse
  check_decoded s now r normalized_ip (err _) state = (refuse 400 (codes "invalid path"), state)
  check_decoded s now r normalized_ip (ok path) state =
      check_client s now r normalized_ip path state

  -- Step 2: the path, under an address that parses.
  unfoldable pub check_normalized :
      Snapshot → ℕ → Request → Bytes → Option Address → State → CheckResult × State
  unfolding check_decoded normalize_path refuse
  check_normalized s now r normalized_ip none state =
      (refuse 400 (codes "invalid client ip"), state)
  check_normalized s now r normalized_ip (some _) state =
      check_decoded s now r normalized_ip (normalize_path s.case_sensitive_paths r.raw_path) state

  abbrev pub client_of : Snapshot → Request → Address.NormalizedIp
  client_of s r =
      Address.normalize_ip net (Address.get_client_ip net r.peer r.xff_header s.trusted_proxies)

  -- Step 1: the address of the client.
  unfoldable pub check_rules : Option Snapshot → ℕ → Request → State → CheckResult × State
  unfolding check_normalized refuse
  check_rules none now r state = (refuse 500 (codes "security rules unavailable"), state)
  check_rules (some s) now r state =
      check_normalized s now r (client_of s r).str (client_of s r).addr state

  unfoldable pub check_snapshot : Option Snapshot → ℕ → Request → State → CheckResult × State
  unfolding check_rules refuse
  check_snapshot snapshot now r state =
      if is_empty r.raw_path || bytes_eq r.raw_path (codes "/")
      then (refuse 404 (codes "not found"), state)
      else check_rules snapshot now r state
