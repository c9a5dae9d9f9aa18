-- ===== src/Tests/Http.antt =====
-- `src/http` on small inputs.
use asio_owen.Prelude.{
  has_byte, pos, true, false, not, [], ◌∷◌, ◌++◌, some, none, Bytes, codes, bytes_eq, trim,
  split_on, map, All, ok, ◌≡◌, ◌↔◌, refl, suc, length,
}
use asio_owen.Config.{Config}
use asio_owen.Http.Headers.{initial_state, note_transfer_encoding, parse_header_fields}
use asio_owen.Http.Headers.Framing.{no_fields, AgreesOn, parse_header_fields_one_length}
use asio_owen.Http.Headers.Encoding.{IsChunkedOnly, note_transfer_encoding_valid}
use asio_owen.Http.Context.{HttpContext}
use asio_owen.Http.Cors.{CorsPolicy, default_policy, resolve_origin, load_cors_policy}
use asio_owen.Http.Cors.Origins.{IsAllowed, listed_origins, load_cors_policy-IsAllowed}
use asio_owen.Http.Json.{int_text, json_resp}
use asio_owen.Http.Json.Reader.{in_text, read_string}
use asio_owen.Http.Json.Escape.{json_resp-message}
use asio_owen.Http.JsonKeys.{object, rename_keys, json_keys_snake_to_camel}
use asio_owen.Http.JsonKeys.Members.{
  outside, IsLiteral, done, plain, pair, camel, member, rename_keys-member,
}
use asio_owen.Http.Response.{
  crlf, text_if, http_response_has_no_body, written_headers, build_downstream_response,
}
use asio_owen.Http.Response.Lines.{
  IsLine, read_message, head_lines, build_downstream_response-IsLines,
}
use asio_owen.Http.Response.Fields.{MayPass, written_headers-MayPass}

abbrev block : Bytes
block =
    codes "Host: a"
    ++ crlf
    ++ codes "content-length: 5"
    ++ crlf
    ++ codes "Content-Length: 5"
    ++ crlf

block_settled :
    ((parse_header_fields block no_fields).state.duplicate_content_length ≡ false)
    × ((parse_header_fields block no_fields).state.invalid_content_length ≡ false)
unfolding parse_header_fields
block_settled = (refl, refl)

parse_header_fields_one_length_example :
    All
      (AgreesOn (parse_header_fields block no_fields).state)
      (parse_header_fields block no_fields).out
parse_header_fields_one_length_example = parse_header_fields_one_length block block_settled

note_transfer_encoding_valid_example :
    ((note_transfer_encoding (codes "gzip, chunked") initial_state).invalid_transfer_encoding
      ≡ false)
    ↔ IsChunkedOnly (map trim (split_on b',' (codes "gzip, chunked")))
note_transfer_encoding_valid_example =
    note_transfer_encoding_valid (codes "gzip, chunked") initial_state refl refl refl

abbrev config : Config
config = record {
  values =
      (codes "cors.enabled", codes "true")
      ∷ (codes "cors.allowed_origins", codes "http://a, http://b")
      ∷ [];
  raw_entries = [];
}

abbrev policy : CorsPolicy
policy = record default_policy {
  enabled = true;
  allowed_origins = codes "http://b" ∷ codes "http://a" ∷ [];
}

policy_loaded : load_cors_policy config ≡ ok policy
unfolding load_cors_policy bytes_eq
policy_loaded = refl

origin_granted : resolve_origin policy (codes "http://a") ≡ some (codes "http://a")
unfolding resolve_origin bytes_eq
origin_granted = refl

load_cors_policy-IsAllowed_example :
    IsAllowed (listed_origins config) policy (codes "http://a") (codes "http://a")
load_cors_policy-IsAllowed_example =
    load_cors_policy-IsAllowed config (codes "http://a") policy_loaded origin_granted

abbrev context : HttpContext
context = record {
  method = codes "GET";
  path = codes "/a";
  body = [];
  headers = (codes "Origin", codes "http://a") ∷ [];
  status_code = 200;
  response_status_text = codes "OK\r\nX-Evil: 1";
  response_body = codes "{}";
  response_headers =
      (codes "Access-Control-Allow-Origin", codes "*")
      ∷ (codes "Content-Length", codes "9")
      ∷ (codes "X-A", codes "1\r\nX-Evil: 1")
      ∷ [];
  principal = none;
  admin_principal = none;
  client_ip = [];
  jwt_disabled = false;
}

build_downstream_response-IsLines_example :
    (read_message
        (suc (length (build_downstream_response context (codes "GET") true)))
        (build_downstream_response context (codes "GET") true)
      ≡ some (
        head_lines context (codes "GET") true,
        text_if (not (http_response_has_no_body (codes "GET") 200)) (codes "{}"),
      ))
    × All IsLine (head_lines context (codes "GET") true)
build_downstream_response-IsLines_example =
    build_downstream_response-IsLines context (codes "GET") true

written_headers-MayPass_example :
    All (MayPass context (codes "GET") true) (written_headers context (codes "GET") true)
written_headers-MayPass_example = written_headers-MayPass context (codes "GET") true

json_resp-message_example :
    (literal : Bytes) × (json_resp (pos 500) (codes "a\"b") (codes "null")
      ≡ codes "{\"code\":" ++ int_text (pos 500) ++ codes ",\"msg\":\"" ++ literal)
    × (read_string in_text literal
        ≡ some (codes "a\"b", codes ",\"data\":" ++ codes "null" ++ codes "}"))
json_resp-message_example = json_resp-message (pos 500) (codes "a\"b") (codes "null")

json_keys_renamed :
    json_keys_snake_to_camel (codes "{\"a_b__c\":\"x_y\",\"_d\":[\"e_f\"]}")
    ≡ codes "{\"aBC\":\"x_y\",\"D\":[\"e_f\"]}"
unfolding json_keys_snake_to_camel
json_keys_renamed = refl

-- The literal x_\".
literal : IsLiteral (b'x' ∷ b'_' ∷ 92 ∷ 34 ∷ [])
literal = plain refl refl (plain refl refl (pair done))

rename_keys-member_example :
    rename_keys
      (outside (record { kind = object; expect_key = true } ∷ []))
      (member (codes "user_id") (b'x' ∷ b'_' ∷ 92 ∷ 34 ∷ []) (codes "}"))
    ≡ member
        (camel (codes "user_id"))
        (b'x' ∷ b'_' ∷ 92 ∷ 34 ∷ [])
        (rename_keys (outside (record { kind = object; expect_key = false } ∷ [])) (codes "}"))
unfolding has_byte
rename_keys-member_example =
    rename_keys-member [] (codes "user_id") (b'x' ∷ b'_' ∷ 92 ∷ 34 ∷ []) (codes "}") refl refl
      literal
