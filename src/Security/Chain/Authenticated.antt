-- ===== src/Security/Chain/Authenticated.antt =====
-- How a request is authenticated, and what a path that is open demands.
use asio_owen.Prelude.{
  ℕ, Bool, true, false, Option, some, none, Bytes, is_empty, ◌≡◌, ◌⊎◌, inl, inr, refl, arith,
  Bool-cases,
}
use asio_owen.Security.Whitelist
use asio_owen.Security.PathRules
use asio_owen.Security.Address.{AddressLib}
use asio_owen.Security.Jwt.{JwtLib, JwtAuth, JwtClaims, verify}
use asio_owen.Security.Chain.{
  Limiter, CheckResult, Snapshot, principal_of, have_role, check_path, check_claims, check_token,
  authenticate,
}

module _ (net : AddressLib) (jwt : JwtLib) (limiter : Limiter) where
  open limiter use {State}

  -- The path is open to someone with these claims (none, if no token was read).
  pub record IsOpen (s : Snapshot net jwt limiter) (path : Bytes) (is_whitelisted : Bool)
      (claims : Option JwtClaims) : Type 0 where
    pub not_blocked : (PathRules.check s.path_blacklist path).blocked ≡ false
    pub role_met :
        (is_empty (PathRules.check s.path_blacklist path).required_role ≡ true)
        ⊎ ((is_whitelisted ≡ false)
            × (have_role claims (PathRules.check s.path_blacklist path).required_role ≡ true))

  check_path-IsOpen :
      (s : Snapshot net jwt limiter) (path : Bytes) (w : Bool) (claims : Option JwtClaims)
      (result : CheckResult)
      → (check_path net jwt limiter s path w claims result).status_code ≡ 0
      → IsOpen s path w claims
  unfolding check_path
  check_path-IsOpen s path w claims result h = ground arith

  -- How the request was authenticated: by the whitelist, not at all because JWT is switched off,
  -- or by a token that verifies.
  pub data Authenticated (s : Snapshot net jwt limiter) (now : ℕ) (path : Bytes) (service : Bytes)
      (auth_header : Bytes) : Type 0 where
    by_whitelist :
        Whitelist.is_whitelisted s.auth_whitelist path service ≡ true
        → IsOpen s path true none
        → Authenticated s now path service auth_header
    switched_off :
        s.jwt_auth ≡ none
        → Whitelist.is_whitelisted s.auth_whitelist path service ≡ false
        → IsOpen s path false none
        → Authenticated s now path service auth_header
    by_token :
        (auth : JwtAuth jwt) (claims : JwtClaims)
        → s.jwt_auth ≡ some auth
        → verify jwt auth now auth_header ≡ some claims
        → IsOpen s path false (some claims)
        → Authenticated s now path service auth_header

  check_claims-IsOpen :
      (s : Snapshot net jwt limiter) (path : Bytes) (result : CheckResult) (o : Option JwtClaims)
      → (check_claims net jwt limiter s path result o).status_code ≡ 0
      → (claims : JwtClaims) × (o ≡ some claims) × IsOpen s path false (some claims)
  unfolding check_claims
  check_claims-IsOpen s path result none h = absurd (ground arith)
  check_claims-IsOpen s path result (some claims) h = (
    claims,
    refl,
    check_path-IsOpen s path false (some claims)
        (record result { principal = some (principal_of claims) }) h,
  )

  check_token-Authenticated :
      (s : Snapshot net jwt limiter) (now : ℕ) (path service auth_header : Bytes)
      (result : CheckResult) (j : Option (JwtAuth jwt))
      → s.jwt_auth ≡ j
      → Whitelist.is_whitelisted s.auth_whitelist path service ≡ false
      → (check_token net jwt limiter s now path auth_header result j).status_code ≡ 0
      → Authenticated s now path service auth_header
  unfolding check_token
  check_token-Authenticated s now path service auth_header result none e w h =
      switched_off e w (check_path-IsOpen s path false none result h)
  check_token-Authenticated s now path service auth_header result (some auth) e w h =
      let (claims, v, open_to) =
        check_claims-IsOpen s path result (verify jwt auth now auth_header) h in
      by_token auth claims e v open_to

  pub authenticate-Authenticated :
      (s : Snapshot net jwt limiter) (now : ℕ) (path service auth_header : Bytes)
      (result : CheckResult)
      → (authenticate net jwt limiter s now path service auth_header result).status_code ≡ 0
      → Authenticated s now path service auth_header
  unfolding authenticate
  authenticate-Authenticated s now path service auth_header result h =
      elim (Bool-cases (Whitelist.is_whitelisted s.auth_whitelist path service)) [
        | inl w ↦ by_whitelist w (check_path-IsOpen s path true none result (rw w at h))
        | inr w ↦
            check_token-Authenticated s now path service auth_header result s.jwt_auth refl w
              (rw w at h)
      ]
