-- ===== src/Http/Cors.antt =====
-- `src/http/cors.hpp`: which origins a page may call from, and the headers that say so.
pub mod Origins
pub mod Applied
use asio_owen.Prelude.{
  ℕ, suc, Bool, true, false, not, ◌&&◌, ◌||◌, List, [], ◌∷◌, ◌++◌, if◌then◌else◌, Option, some,
  none, Bytes, codes, bytes_eq, any, keep, map, is_empty, trim, split_on, split_from, ℤ, pos,
  negsuc, Outcome, ok, err, ◌>>=◌,
}
use asio_owen.Config.{Config, ConfigError, get, get_bool, get_int}
use asio_owen.Http.Numbers.{to_string}
use asio_owen.Http.Headers.{Header, header_iequals}
use asio_owen.Http.Context.{HttpContext, get_header, get_header_value}

pub record CorsPolicy : Type 0 where
  pub enabled : Bool
  pub allow_all_origins : Bool
  pub allowed_origins : List Bytes
  pub allowed_methods : Bytes
  pub allowed_headers : Bytes
  pub expose_headers : Bytes
  pub allow_credentials : Bool
  pub max_age : ℤ

abbrev pub default_policy : CorsPolicy
default_policy = record {
  enabled = false;
  allow_all_origins = false;
  allowed_origins = [];
  allowed_methods = codes "GET, POST, PUT, DELETE, OPTIONS";
  allowed_headers = codes "Content-Type, Authorization";
  expose_headers = [];
  allow_credentials = false;
  max_age = pos 600;
}

-- The value of `Access-Control-Allow-Origin`, `none` for an origin that is not allowed.
unfoldable pub resolve_origin : CorsPolicy → Bytes → Option Bytes
resolve_origin p origin =
    if not p.enabled || is_empty origin
    then none
    else if p.allow_all_origins
    then some (if p.allow_credentials then origin else codes "*")
    else if any (λ o. bytes_eq o origin) p.allowed_origins
    then some origin
    else none

-- One token of the list of origins, trimmed. The set is a list, in which an origin may stand twice.
abbrev pub add_origin : CorsPolicy → Bytes → CorsPolicy
add_origin p token =
    if is_empty token
    then p
    else if bytes_eq token (codes "*")
    then record p { allow_all_origins = true }
    else record p { allowed_origins = token ∷ p.allowed_origins }

unfoldable pub add_origins : CorsPolicy → List Bytes → CorsPolicy
add_origins p [] = p
add_origins p (token ∷ tokens) = add_origins (add_origin p token) tokens

-- No credentials with the wildcard.
unfoldable pub guard_credentials : CorsPolicy → CorsPolicy
guard_credentials p =
    if p.allow_all_origins && p.allow_credentials then record p { allow_credentials = false } else p

abbrev pub section : Bytes
section = codes "cors"

-- The settings behind the list of origins.
abbrev pub with_texts : Config → CorsPolicy → CorsPolicy
with_texts cfg p = record p {
  allowed_methods = get cfg section (codes "allowed_methods") p.allowed_methods;
  allowed_headers = get cfg section (codes "allowed_headers") p.allowed_headers;
  expose_headers = get cfg section (codes "expose_headers") [];
}

abbrev pub with_numbers : CorsPolicy → Bool → ℤ → CorsPolicy
with_numbers p credentials max_age = record p { allow_credentials = credentials; max_age = max_age }

unfoldable pub load_max_age : Config → CorsPolicy → Bool → Outcome ConfigError CorsPolicy
unfolding get_int guard_credentials
load_max_age cfg p credentials = get_int cfg section (codes "max_age") (pos 600) >>= λ max_age.
    ok (guard_credentials (with_numbers p credentials max_age))

unfoldable pub load_settings : Config → CorsPolicy → Outcome ConfigError CorsPolicy
unfolding get get_bool load_max_age
load_settings cfg p =
    get_bool cfg section (codes "allow_credentials") false >>= load_max_age cfg (with_texts cfg p)

unfoldable pub load_if : Config → Bool → Outcome ConfigError CorsPolicy
unfolding load_settings add_origins get trim split_from
load_if cfg false = ok default_policy
load_if cfg true = load_settings cfg (
    add_origins (record default_policy { enabled = true })
      (map trim (split_on b',' (get cfg section (codes "allowed_origins") []))))

-- An exception of the configuration passes through.
unfoldable pub load_cors_policy : Config → Outcome ConfigError CorsPolicy
unfolding load_if get_bool
load_cors_policy cfg = get_bool cfg section (codes "enabled") false >>= load_if cfg

unfoldable pub is_cors_header : Bytes → Bool
unfolding header_iequals
is_cors_header n =
    header_iequals n (codes "access-control-allow-origin")
    || header_iequals n (codes "access-control-allow-credentials")
    || header_iequals n (codes "access-control-allow-methods")
    || header_iequals n (codes "access-control-allow-headers")
    || header_iequals n (codes "access-control-expose-headers")
    || header_iequals n (codes "access-control-max-age")

unfoldable pub strip_cors_headers : List Header → List Header
unfolding is_cors_header
strip_cors_headers headers = keep (λ h. not (is_cors_header h.0)) headers

-- `emplace_back` under a condition.
abbrev pub header_if : Bool → Bytes → Bytes → List Header
header_if true name value = (name, value) ∷ []
header_if false name value = []

-- The headers that go with the origin: `Vary` for one that is echoed.
abbrev pub origin_headers : Bytes → List Header
origin_headers allow =
    (codes "Access-Control-Allow-Origin", allow)
    ∷ header_if (not (bytes_eq allow (codes "*"))) (codes "Vary") (codes "Origin")

abbrev pub granted_headers : CorsPolicy → Option Bytes → List Header
granted_headers p none = []
granted_headers p (some allow) =
    origin_headers allow
    ++ header_if p.allow_credentials (codes "Access-Control-Allow-Credentials") (codes "true")
    ++ header_if (not (is_empty p.expose_headers)) (codes "Access-Control-Expose-Headers")
        p.expose_headers

unfoldable pub apply_cors_headers : HttpContext → CorsPolicy → HttpContext
unfolding strip_cors_headers resolve_origin get_header_value
apply_cors_headers ctx p = if not p.enabled then ctx else record ctx {
  response_headers =
      strip_cors_headers ctx.response_headers
      ++ granted_headers p (resolve_origin p (get_header ctx (codes "Origin")));
}

-- `std::to_string` of an `int`.
abbrev pub int_to_string : ℤ → Bytes
int_to_string (pos n) = to_string n
int_to_string (negsuc n) = b'-' ∷ to_string (suc n)

abbrev pub preflight_headers : HttpContext → CorsPolicy → Bytes → List Header
preflight_headers ctx p allow =
    let requested = get_header ctx (codes "Access-Control-Request-Headers") in
    origin_headers allow
    ++ (codes "Access-Control-Allow-Methods", p.allowed_methods)
      ∷ (
        codes "Access-Control-Allow-Headers",
        if is_empty requested then p.allowed_headers else requested,
      )
      ∷ header_if p.allow_credentials (codes "Access-Control-Allow-Credentials") (codes "true")
    ++ (codes "Access-Control-Max-Age", int_to_string p.max_age) ∷ []

abbrev pub preflight_for : HttpContext → CorsPolicy → Option Bytes → HttpContext × Bool
preflight_for ctx p none = (ctx, false)
preflight_for ctx p (some allow) = (
  record ctx {
    status_code = 204;
    response_status_text = codes "No Content";
    response_body = [];
    response_headers = preflight_headers ctx p allow;
  },
  true,
)

-- `false`, and the context as it was, if the policy is off or the origin is not allowed.
unfoldable pub build_preflight_response : HttpContext → CorsPolicy → HttpContext × Bool
unfolding resolve_origin get_header_value to_string
build_preflight_response ctx p =
    if not p.enabled
    then (ctx, false)
    else preflight_for ctx p (resolve_origin p (get_header ctx (codes "Origin")))
