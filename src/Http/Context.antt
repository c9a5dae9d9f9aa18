-- ===== src/Http/Context.antt =====
-- `src/http/http_context.hpp`: a request and its response.
use asio_owen.Prelude.{ℕ, Bool, List, [], ◌∷◌, if◌then◌else◌, Option, Bytes}
use asio_owen.Security.PathRules.{Principal}
use asio_owen.Http.Headers.{Header, header_iequals}

-- The value of the first header of this name, empty if there is none.
unfoldable pub get_header_value : List Header → Bytes → Bytes
unfolding header_iequals
get_header_value [] key = []
get_header_value ((k, v) ∷ headers) key =
    let rest = get_header_value headers key in if header_iequals k key then v else rest

pub record HttpContext : Type 0 where
  pub method : Bytes
  pub path : Bytes
  pub body : Bytes
  pub headers : List Header
  pub status_code : ℕ
  pub response_status_text : Bytes
  pub response_body : Bytes
  pub response_headers : List Header
  pub principal : Option Principal
  pub admin_principal : Option Principal
  pub client_ip : Bytes
  pub jwt_disabled : Bool

abbrev pub get_header : HttpContext → Bytes → Bytes
get_header ctx key = get_header_value ctx.headers key
