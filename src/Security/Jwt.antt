-- ===== src/Security/Jwt.antt =====
-- `src/security/jwt_auth.hpp`: who may pass with a bearer token. Decoding, signatures and keys are
-- jwt-cpp's and OpenSSL's, taken as a parameter. Times count from the clock's earliest time point.
pub mod Accepts
use asio_owen.Prelude.{
  ℕ, ◌+◌, ◌*◌, ltb, Bool, true, false, not, ◌&&◌, ◌||◌, List, [], ◌∷◌, ◌++◌, ◌==◌, if◌then◌else◌,
  Option, some, none, Bytes, codes, bytes_eq, trim, trim_left, lower, is_empty, length, take, drop,
  Outcome, ok, err, ℤ, pos,
}

-- A claim of the payload. An element of an array is `none` unless it is a string.
pub data Claim : Type 0 where
  text : Bytes → Claim
  array : List (Option Bytes) → Claim
  integer : ℤ → Claim
  other : Claim

-- What `jwt::decode` gives. The fields are `none` where the getter throws or the claim is absent.
pub record Decoded : Type 0 where
  pub algorithm : Option Bytes
  pub header_base64 : Bytes
  pub payload_base64 : Bytes
  pub signature : Bytes
  pub issuer : Option Bytes
  pub subject : Option Bytes
  pub expires_at : Option ℕ
  -- `some none` where `has_not_before()` holds and the getter throws.
  pub not_before : Option (Option ℕ)
  pub payload_claim : Bytes → Option Claim

pub record JwtLib : Type 1 where
  pub Key : Type 0
  -- `jwt::decode`, `none` if it throws.
  pub decode : Bytes → Option Decoded
  -- Whether `verifier.verify(decoded)` returns, for HS256 with this secret and issuer.
  pub hs256_accepts : Bytes → Bytes → Decoded → Bool
  -- `PEM_read_bio_PUBKEY`.
  pub read_public_key : Bytes → Option Key
  -- `EVP_VerifyFinal(...) == 1` over the data, the signature and the key.
  pub rs256_verifies : Bytes → Bytes → Key → Bool
  -- `std::chrono::seconds(1)` in ticks of the clock.
  pub second : ℕ

pub record JwtClaims : Type 0 where
  pub subject : Bytes
  pub username : Bytes
  pub roles : List Bytes
  pub exp : ℤ
  pub iat : ℤ
  pub raw_token : Bytes

pub data JwtError : Type 0 where
  no_public_key bad_public_key unsupported_algorithm : JwtError

infixl 5 ◌>>=◌ ◌>>◌
abbrev pub ◌>>=◌ {ℓ κ} : {A : Type ℓ} {B : Type κ} → Option A → (A → Option B) → Option B
none >>= f = none
some a >>= f = f a

-- A step that throws or not.
abbrev pub ◌>>◌ {ℓ} : {B : Type ℓ} → Bool → Option B → Option B
true >> k = k
false >> k = none

-- The token of `Authorization: Bearer <token>`.
unfoldable pub extract_token : Bytes → Option Bytes
unfolding trim_left trim lower bytes_eq
extract_token auth_header =
    let header_trimmed = trim_left auth_header in
    let token = trim (drop 7 header_trimmed) in
    if ltb (length auth_header) 7 || ltb (length header_trimmed) 7
    then none
    else if not (bytes_eq (lower (take 7 header_trimmed)) (lower (codes "Bearer ")))
    then none
    else if is_empty token
    then none
    else some token

-- `as_string()` of a claim that is there.
unfoldable pub as_string : Claim → Option Bytes
as_string (text s) = some s
as_string (array _) = none
as_string (integer _) = none
as_string other = none

unfoldable pub as_integer : Claim → Option ℤ
as_integer (integer n) = some n
as_integer (text _) = none
as_integer (array _) = none
as_integer other = none

unfoldable pub strings : List (Option Bytes) → List Bytes
strings [] = []
strings (none ∷ items) = strings items
strings (some s ∷ items) = s ∷ strings items

unfoldable pub as_array : Claim → Option (List Bytes)
unfolding strings
as_array (array items) = some (strings items)
as_array (text _) = none
as_array (integer _) = none
as_array other = none

-- The value of an optional claim, or a default; `none` if it has the wrong type.
abbrev pub optional {ℓ} : {A : Type ℓ} → Option Claim → (Claim → Option A) → A → Option A
optional none read default = some default
optional (some c) read default = read c

unfoldable pub extract_username : Decoded → Option Bytes
unfolding as_string
extract_username d = elim (d.payload_claim (codes "username")) [
  | some c ↦ as_string c
  | none ↦ optional (d.payload_claim (codes "name")) as_string []
]

-- The list of `roles`, and behind it the single `role`.
unfoldable pub extract_roles : Decoded → Option (List Bytes)
unfolding as_array as_string
extract_roles d = do
  roles ← optional (d.payload_claim (codes "roles")) as_array []
  elim (d.payload_claim (codes "role")) [
    | none ↦ some roles
    | some c ↦ as_string c >>= λ r. some (roles ++ r ∷ [])
  ]

unfoldable pub extract_claims : Bytes → Decoded → Option JwtClaims
unfolding extract_username extract_roles as_integer
extract_claims token d = do
  subject ← d.subject
  username ← extract_username d
  roles ← extract_roles d
  exp ← optional (d.payload_claim (codes "exp")) as_integer (pos 0)
  iat ← optional (d.payload_claim (codes "iat")) as_integer (pos 0)
  some (record {
    subject = subject;
    username = username;
    roles = roles;
    exp = exp;
    iat = iat;
    raw_token = token;
  })

module _ (lib : JwtLib) where
  open lib use {Key, second}

  pub record JwtAuth : Type 0 where
    pub secret : Bytes
    pub issuer : Bytes
    pub algorithm : Bytes
    pub pkey : Option Key

  -- The constructor, which loads the key; the warning about a short secret is left out.
  unfoldable pub make_jwt_auth : Bytes → Bytes → Bytes → Bytes → Outcome JwtError JwtAuth
  unfolding bytes_eq
  make_jwt_auth secret issuer algorithm public_key =
      if bytes_eq algorithm (codes "HS256")
      then ok (record { secret = secret; issuer = issuer; algorithm = algorithm; pkey = none })
      else if bytes_eq algorithm (codes "RS256")
      then (if is_empty public_key
          then err no_public_key
          else elim (lib.read_public_key public_key) [
            | none ↦ err bad_public_key
            | some key ↦ ok (record {
              secret = secret;
              issuer = issuer;
              algorithm = algorithm;
              pkey = some key;
            })
          ])
      else err unsupported_algorithm

  unfoldable pub leeway : ℕ
  leeway = 60 * second

  -- `now + leeway < nbf`, if there is an `nbf`; true also if reading it throws.
  abbrev pub is_early : ℕ → Option (Option ℕ) → Bool
  is_early now none = false
  is_early now (some none) = true
  is_early now (some (some nbf)) = ltb (now + leeway) nbf

  -- True if the function returns, false where it throws.
  unfoldable pub verify_registered_claims : Bytes → ℕ → Decoded → Bool
  unfolding bytes_eq leeway
  verify_registered_claims issuer now d = elim d.issuer [
    | none ↦ false
    | some iss ↦ bytes_eq iss issuer && (elim d.expires_at [
      | none ↦ false
      | some exp ↦ not (ltb (exp + leeway) now) && not (is_early now d.not_before)
    ])
  ]

  abbrev pub verifies : Option Key → Decoded → Bool
  verifies none d = false
  verifies (some key) d =
      lib.rs256_verifies (d.header_base64 ++ b'.' ∷ d.payload_base64) d.signature key

  abbrev pub is_named : Bytes → Option Bytes → Bool
  is_named name none = false
  is_named name (some a) = bytes_eq a name

  -- The checks of `do_verify` for either algorithm.
  unfoldable pub accepts : JwtAuth → ℕ → Decoded → Bool
  unfolding verify_registered_claims
  accepts auth now d =
      if bytes_eq auth.algorithm (codes "HS256")
      then lib.hs256_accepts auth.secret auth.issuer d && verify_registered_claims auth.issuer now d
      else if bytes_eq auth.algorithm (codes "RS256")
      then verifies auth.pkey d
        && is_named (codes "RS256") d.algorithm
        && verify_registered_claims auth.issuer now d
      else true

  unfoldable pub do_verify : JwtAuth → ℕ → Bytes → Option JwtClaims
  unfolding accepts extract_claims
  do_verify auth now token = do d ← lib.decode token; accepts auth now d; extract_claims token d

  unfoldable pub verify : JwtAuth → ℕ → Bytes → Option JwtClaims
  unfolding extract_token do_verify
  verify auth now auth_header = do token ← extract_token auth_header; do_verify auth now token
