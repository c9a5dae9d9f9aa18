-- ===== src/Tests/Chain.antt =====
-- A request with a token through the chain of `src/security/security_rules.hpp`.
use asio_owen.Prelude.{
  ℕ, ◌+◌, true, false, List, [], ◌∷◌, if◌then◌else◌, some, none, Bytes, codes, bytes_eq,
  starts_with, refl, inl, ◌≡◌, pos,
}
use asio_owen.Security.Whitelist
use asio_owen.Security.PathRules
use asio_owen.Security.Address
use asio_owen.Security.Address.{IpBlacklist}
use asio_owen.Security.Jwt.{
  JwtLib, JwtAuth, JwtClaims, Decoded, array, verify, extract_token, extract_claims,
}
use asio_owen.Security.Jwt.Accepts.{IsSigned, IsCurrent, verify-IsCurrent}
use asio_owen.Security.Chain.{Limiter, Request, Snapshot, check_snapshot}
use asio_owen.Security.Chain.Passes.{Passed, check_snapshot-Passed}
use asio_owen.Tests.Security.{lib, proxies, rules, open_items}

-- One token, which carries the role `admin` and is over at 1000.
abbrev pub decoded : Decoded
decoded = record {
  algorithm = some (codes "HS256");
  header_base64 = [];
  payload_base64 = [];
  signature = [];
  issuer = some (codes "issuer");
  subject = some (codes "user");
  expires_at = some 1000;
  not_before = none;
  payload_claim =
      λ k. if bytes_eq k (codes "roles") then some (array (some (codes "admin") ∷ [])) else none;
}

abbrev pub jwt : JwtLib
jwt = record {
  Key = Unit;
  decode = λ token. if bytes_eq token (codes "token") then some decoded else none;
  hs256_accepts = λ secret issuer d. bytes_eq secret (codes "secret");
  read_public_key = λ _. some tt;
  rs256_verifies = λ _ _ _. false;
  second = 1;
}

abbrev pub auth : JwtAuth jwt
auth = record {
  secret = codes "secret";
  issuer = codes "issuer";
  algorithm = codes "HS256";
  pkey = none;
}

abbrev claims : JwtClaims
claims = record {
  subject = codes "user";
  username = [];
  roles = codes "admin" ∷ [];
  exp = pos 0;
  iat = pos 0;
  raw_token = codes "token";
}

verified : verify jwt auth 900 (codes "Bearer token") ≡ some claims
unfolding verify
verified = refl

verify-IsCurrent_example :
    (token : Bytes) × (d : Decoded) × (extract_token (codes "Bearer token") ≡ some token)
    × (jwt.decode token ≡ some d)
    × IsSigned jwt auth d
    × IsCurrent jwt (codes "issuer") 900 d
    × (extract_claims token d ≡ some claims)
verify-IsCurrent_example = verify-IsCurrent jwt auth 900 (codes "Bearer token") (inl refl) verified

-- Counts the requests that it was asked about.
abbrev limiter : Limiter
limiter = record {
  State = ℕ;
  check_all = λ ip path service n. (record { allowed = true; retry_after_ms = 0 }, n + 1);
}

abbrev snapshot : List Bytes → Snapshot lib jwt limiter
snapshot barred = record {
  case_sensitive_paths = false;
  trusted_proxies = proxies;
  ip_blacklist = Address.reload lib barred;
  auth_whitelist = Whitelist.reload open_items;
  path_blacklist = PathRules.reload rules;
  jwt_auth = some auth;
  has_limiter = true;
}

abbrev pub request : Request
request = record {
  peer = some (codes "prox");
  method = codes "GET";
  raw_path = codes "/admin/x";
  xff_header = codes "real";
  auth_header = codes "Bearer token";
}

passes :
    (check_snapshot lib jwt limiter
      (some (snapshot (codes "evil" ∷ [])))
      900
      request
      0).0.status_code
    ≡ 0
unfolding check_snapshot Address.normalize_ip Address.get_client_ip Address.is_blocked
    Address.reload Whitelist.is_whitelisted Whitelist.reload starts_with verify PathRules.check
    PathRules.reload
passes = refl

check_snapshot-Passed_example :
    (s : Snapshot lib jwt limiter) × (some (snapshot (codes "evil" ∷ [])) ≡ some s)
    × Passed lib jwt limiter s 900 request 0
check_snapshot-Passed_example =
    check_snapshot-Passed lib jwt limiter (some (snapshot (codes "evil" ∷ []))) 900 request 0 passes
