-- ===== src/Security/Jwt/Accepts.antt =====
-- What a request that passes has shown.
use asio_owen.Prelude.{
  ℕ, ◌+◌, ◌≤◌, Bool, true, false, Option, some, none, Bytes, codes, bytes_eq_iff, ok, ◌≡◌, ◌⊎◌,
  refl, arith,
}
use asio_owen.Security.Jwt.{
  Decoded, JwtLib, JwtClaims, JwtAuth, make_jwt_auth, extract_token, extract_claims, leeway,
  is_early, is_named, verifies, verify_registered_claims, accepts, do_verify, verify, ◌>>=◌, ◌>>◌,
}

bind-eq-some {ℓ κ} :
    {A : Type ℓ} {B : Type κ} (m : Option A) (f : A → Option B) {b : B}
    → (m >>= f) ≡ some b
    → (a : A) × (m ≡ some a) × (f a ≡ some b)
bind-eq-some none f h = cc
bind-eq-some (some a) f h = (a, refl, h)

guard-eq-some {ℓ} :
    {B : Type ℓ} (b : Bool) (k : Option B) {r : B} → (b >> k) ≡ some r → (b ≡ true) × (k ≡ some r)
guard-eq-some true k h = (refl, h)
guard-eq-some false k h = cc

module _ (lib : JwtLib) where
  -- The two algorithms that the constructor lets through, with their keys.
  pub make_jwt_auth_algorithm :
      (secret issuer algorithm public_key : Bytes) {auth : JwtAuth lib}
      → make_jwt_auth lib secret issuer algorithm public_key ≡ ok auth
      → (auth.issuer ≡ issuer)
        × ((auth.algorithm ≡ codes "HS256") ⊎ (auth.algorithm ≡ codes "RS256"))
  unfolding make_jwt_auth
  make_jwt_auth_algorithm secret issuer algorithm public_key h =
      ground (arith, bytes_eq_iff algorithm (codes "HS256"), bytes_eq_iff algorithm (codes "RS256"))

  -- It can be read, and is not over the present time by more than the leeway, if the token has it.
  abbrev pub HasBegun : ℕ → Option (Option ℕ) → Type 0
  HasBegun now none = Unit
  HasBegun now (some none) = ⊥
  HasBegun now (some (some nbf)) = nbf ≤ now + leeway lib

  -- The token names the configured issuer, and the present time lies within its term, give or
  -- take the leeway. A token without `exp` has no term.
  pub record IsCurrent (issuer : Bytes) (now : ℕ) (d : Decoded) : Type 0 where
    pub issuer_is : d.issuer ≡ some issuer
    pub exp : ℕ
    pub exp_is : d.expires_at ≡ some exp
    pub not_expired : now ≤ exp + leeway lib
    pub not_early : HasBegun now d.not_before

  -- The signature fits the configured key under the configured algorithm.
  abbrev pub IsSigned : JwtAuth lib → Decoded → Type 0
  IsSigned auth d =
      ((auth.algorithm ≡ codes "HS256") × (lib.hs256_accepts auth.secret auth.issuer d ≡ true))
      ⊎ ((auth.algorithm ≡ codes "RS256")
          × (verifies lib auth.pkey d ≡ true)
          × (d.algorithm ≡ some (codes "RS256")))

  has_begun : (now : ℕ) (o : Option (Option ℕ)) → is_early lib now o ≡ false → HasBegun now o
  has_begun now none h = tt
  has_begun now (some none) h = cc
  has_begun now (some (some nbf)) h = ground arith

  verify_registered_claims-IsCurrent :
      (issuer : Bytes) (now : ℕ) (d : Decoded)
      → verify_registered_claims lib issuer now d ≡ true
      → IsCurrent issuer now d
  unfolding verify_registered_claims
  verify_registered_claims-IsCurrent issuer now d h = go d.issuer refl d.expires_at refl
    where
      go :
          (i : Option Bytes)
          → d.issuer ≡ i
          → (e : Option ℕ) → d.expires_at ≡ e
          → IsCurrent issuer now d
      go none p e q = absurd (ground arith)
      go (some iss) p none q = absurd (ground arith)
      go (some iss) p (some exp) q = record {
        issuer_is = ground (arith, bytes_eq_iff iss issuer);
        exp = exp;
        exp_is = q;
        not_expired = ground arith;
        not_early = has_begun now d.not_before (ground arith);
      }

  is_named-some : (name : Bytes) (o : Option Bytes) → is_named lib name o ≡ true → o ≡ some name
  is_named-some name none h = cc
  is_named-some name (some a) h = ground (arith, bytes_eq_iff a name)

  accepts_lem :
      (auth : JwtAuth lib) (now : ℕ) (d : Decoded)
      → (auth.algorithm ≡ codes "HS256") ⊎ (auth.algorithm ≡ codes "RS256")
      → accepts lib auth now d ≡ true
      → IsSigned auth d × (verify_registered_claims lib auth.issuer now d ≡ true)
  unfolding accepts
  accepts_lem auth now d a h = ground (
    arith,
    bytes_eq_iff auth.algorithm (codes "HS256"),
    bytes_eq_iff auth.algorithm (codes "RS256"),
    is_named-some (codes "RS256") d.algorithm,
  )

  -- Whoever passes sent a bearer token that decodes, is signed with the algorithm that is configured,
  -- whatever the token itself names, is issued by the configured issuer,
  -- carries an `exp` that is not over, and is not early; the claims are read from that token.
  pub verify-IsCurrent :
      (auth : JwtAuth lib) (now : ℕ) (auth_header : Bytes) {claims : JwtClaims}
      → (auth.algorithm ≡ codes "HS256") ⊎ (auth.algorithm ≡ codes "RS256")
      → verify lib auth now auth_header ≡ some claims
      → (token : Bytes) × (d : Decoded) × (extract_token auth_header ≡ some token)
        × (lib.decode token ≡ some d)
        × IsSigned auth d
        × IsCurrent auth.issuer now d
        × (extract_claims token d ≡ some claims)
  unfolding verify do_verify
  verify-IsCurrent auth now auth_header a h =
      let (token, e1, h1) = bind-eq-some (extract_token auth_header) _ h in
      let (d, e2, h2) = bind-eq-some (lib.decode token) _ h1 in
      let (g, h3) = guard-eq-some (accepts lib auth now d) _ h2 in
      let (signed, current) = accepts_lem auth now d a g in
      (token, d, e1, e2, signed, verify_registered_claims-IsCurrent auth.issuer now d current, h3)
