-- ===== src/Http/Response.antt =====
-- `src/http/response_builder.hpp`: the bytes of a response.
pub mod Lines
pub mod Fields
use asio_owen.Prelude.{
  ℕ, Bool, true, false, not, ◌&&◌, ◌||◌, ltb, leb, List, [], ◌∷◌, ◌++◌, ◌==◌, if◌then◌else◌, Bytes,
  codes, bytes_eq, length, any, keep, is_empty,
}
use asio_owen.Http.Numbers.{to_string}
use asio_owen.Http.Headers.{
  Header, header_iequals, is_hop_by_hop_header, add_connection_tokens, contains_header_name,
}
use asio_owen.Http.Context.{HttpContext}

unfoldable pub reason_phrase : ℕ → Bytes
reason_phrase status =
    if status == 200
    then codes "OK"
    else if status == 400
    then codes "Bad Request"
    else if status == 404
    then codes "Not Found"
    else if status == 408
    then codes "Request Timeout"
    else if status == 413
    then codes "Payload Too Large"
    else if status == 431
    then codes "Request Header Fields Too Large"
    else if status == 500
    then codes "Internal Server Error"
    else if status == 502
    then codes "Bad Gateway"
    else if status == 503
    then codes "Service Unavailable"
    else if status == 504
    then codes "Gateway Timeout"
    else []

unfoldable pub http_response_has_no_body : Bytes → ℕ → Bool
http_response_has_no_body method status =
    bytes_eq method (codes "HEAD")
    || status == 204
    || status == 304
    || leb 100 status && ltb status 200

-- Carriage return, line feed, or the zero byte.
abbrev pub is_break : ℕ → Bool
is_break c = c == 13 || c == 10 || c == 0

unfoldable pub is_safe_header : Bytes → Bytes → Bool
is_safe_header name value =
    not (any (λ c. is_break c || c == b':') name) && not (any is_break value)

unfoldable pub is_safe_reason_phrase : Bytes → Bool
is_safe_reason_phrase phrase = not (any is_break phrase)

-- The phrase for a class of status codes.
unfoldable pub class_phrase : ℕ → Bytes
class_phrase status =
    if leb 100 status && ltb status 200
    then codes "Informational"
    else if leb 200 status && ltb status 300
    then codes "OK"
    else if leb 300 status && ltb status 400
    then codes "Redirection"
    else if leb 400 status && ltb status 500
    then codes "Client Error"
    else if leb 500 status && ltb status 600
    then codes "Server Error"
    else codes "Unknown"

unfoldable pub status_phrase : ℕ → Bytes → Bytes
unfolding is_safe_reason_phrase reason_phrase class_phrase
status_phrase status text =
    if not (is_empty text) && is_safe_reason_phrase text
    then text
    else if is_empty (reason_phrase status)
    then class_phrase status
    else reason_phrase status

abbrev pub crlf : Bytes
crlf = 13 ∷ 10 ∷ []

abbrev pub end_line : Bytes → Bytes
end_line text = text ++ crlf

unfoldable pub build_error_response : ℕ → Bytes → Bytes → Bytes
unfolding to_string
build_error_response status reason body =
    end_line (codes "HTTP/1.1 " ++ to_string status ++ codes " " ++ reason)
    ++ end_line (codes "Connection: close")
    ++ end_line (codes "Content-Type: application/json")
    ++ end_line (codes "Content-Length: " ++ to_string (length body))
    ++ crlf
    ++ body

-- The names that a forwarded response may not carry.
unfoldable pub filtered_names : HttpContext → Bytes → List Bytes
unfolding add_connection_tokens http_response_has_no_body
filtered_names ctx method =
    add_connection_tokens ctx.response_headers (
      codes "connection"
      ∷ codes "keep-alive"
      ∷ codes "proxy-authenticate"
      ∷ codes "proxy-authorization"
      ∷ codes "te"
      ∷ codes "trailer"
      ∷ codes "transfer-encoding"
      ∷ codes "upgrade"
      ∷ [])
    ++ (if http_response_has_no_body method ctx.status_code
        then []
        else codes "content-length" ∷ [])

-- Whether the loop over the headers writes this one.
unfoldable pub is_written : HttpContext → Bytes → Bool → Header → Bool
unfolding contains_header_name filtered_names header_iequals is_hop_by_hop_header is_safe_header
is_written ctx method true (k, v) =
    not (contains_header_name (filtered_names ctx method) k) && is_safe_header k v
is_written ctx method false (k, v) =
    not (header_iequals k (codes "content-length") || is_hop_by_hop_header k) && is_safe_header k v

unfoldable pub written_headers : HttpContext → Bytes → Bool → List Header
unfolding is_written
written_headers ctx method proxy_response =
    keep (is_written ctx method proxy_response) ctx.response_headers

unfoldable pub write_headers : List Header → Bytes
write_headers [] = []
write_headers ((k, v) ∷ headers) = end_line (k ++ codes ": " ++ v) ++ write_headers headers

abbrev pub has_name : Bytes → List Header → Bool
has_name name headers = any (λ h. header_iequals h.0 name) headers

abbrev pub text_if : Bool → Bytes → Bytes
text_if true text = text
text_if false text = []

-- The status line and the header lines.
unfoldable pub response_head : HttpContext → Bytes → Bool → Bytes
unfolding to_string status_phrase written_headers write_headers header_iequals
    http_response_has_no_body
response_head ctx method proxy_response =
    let written = written_headers ctx method proxy_response in
    let no_body = http_response_has_no_body method ctx.status_code in
    let has_upstream_cl =
      proxy_response && no_body && has_name (codes "content-length") ctx.response_headers in
    end_line (
      codes "HTTP/1.1 "
      ++ to_string ctx.status_code
      ++ codes " "
      ++ status_phrase ctx.status_code ctx.response_status_text)
    ++ write_headers written
    ++ text_if (not (has_name (codes "content-type") written) && not no_body)
        (end_line (codes "Content-Type: application/json"))
    ++ text_if (leb 400 ctx.status_code) (
        end_line (codes "Connection: close")
        ++ end_line (
            codes "X-Asio-Owen-Status-Source: "
            ++ (if proxy_response then codes "proxy" else codes "local")))
    ++ text_if (not has_upstream_cl) (
        end_line (
          codes "Content-Length: "
          ++ (if no_body then codes "0" else to_string (length ctx.response_body))))

unfoldable pub build_downstream_response : HttpContext → Bytes → Bool → Bytes
unfolding response_head http_response_has_no_body
build_downstream_response ctx method proxy_response =
    response_head ctx method proxy_response
    ++ crlf
    ++ text_if (not (http_response_has_no_body method ctx.status_code)) ctx.response_body
