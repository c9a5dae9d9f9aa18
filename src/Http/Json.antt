-- ===== src/Http/Json.antt =====
-- `src/http/response.hpp`: the envelope of the gateway's own JSON answers.
pub mod Reader
pub mod Escape
use asio_owen.Prelude.{
  ℕ, ◌+◌, ◌-◌, ◌/◌, ◌%◌, ◌==◌, ltb, List, [], ◌∷◌, ◌++◌, if◌then◌else◌, Bytes, codes, ℤ, pos,
  negsuc,
}
use asio_owen.Http.Numbers.{to_string}

-- A digit as `%x` writes it.
unfoldable pub hex_char : ℕ → ℕ
hex_char d = if ltb d 10 then b'0' + d else b'a' + (d - 10)

-- `\u%04x` of a value below 16 ^ 4.
unfoldable pub unicode_escape : ℕ → Bytes
unfolding hex_char
unicode_escape c =
    codes "\\u"
    ++ (hex_char (c / 16 / 16 / 16 % 16)
        ∷ hex_char (c / 16 / 16 % 16)
        ∷ hex_char (c / 16 % 16)
        ∷ hex_char (c % 16)
        ∷ [])

-- The switch on one byte.
unfoldable pub escape_byte : ℕ → Bytes
unfolding unicode_escape
escape_byte c =
    if c == 34
    then codes "\\\""
    else if c == 92
    then codes "\\\\"
    else if c == 8
    then codes "\\b"
    else if c == 12
    then codes "\\f"
    else if c == 10
    then codes "\\n"
    else if c == 13
    then codes "\\r"
    else if c == 9
    then codes "\\t"
    else if ltb c 32
    then unicode_escape c
    else c ∷ []

unfoldable pub json_escape : Bytes → Bytes
unfolding escape_byte
json_escape [] = []
json_escape (c ∷ s) = escape_byte c ++ json_escape s

-- An `int` as a stream writes it.
unfoldable pub int_text : ℤ → Bytes
unfolding to_string
int_text (pos n) = to_string n
int_text (negsuc n) = b'-' ∷ to_string (n + 1)

unfoldable pub json_resp : ℤ → Bytes → Bytes → Bytes
unfolding int_text json_escape
json_resp code msg data_text =
    codes "{\"code\":"
    ++ int_text code
    ++ codes ",\"msg\":\""
    ++ json_escape msg
    ++ codes "\""
    ++ codes ",\"data\":"
    ++ data_text
    ++ codes "}"

unfoldable pub resp_ok : Bytes → Bytes
unfolding json_resp
resp_ok data_text = json_resp (pos 0) (codes "ok") data_text

unfoldable pub resp_ok_str : Bytes → Bytes
unfolding json_resp json_escape
resp_ok_str text = json_resp (pos 0) (codes "ok") (codes "\"" ++ json_escape text ++ codes "\"")

unfoldable pub resp_err : ℤ → Bytes → Bytes
unfolding json_resp
resp_err code msg = json_resp code msg (codes "null")
