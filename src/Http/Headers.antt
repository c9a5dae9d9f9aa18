-- ===== src/Http/Headers.antt =====
-- Header fields in `src/http/http_protocol.hpp`: names, the state that the parser gathers for the
-- framing of the body, and the hop-by-hop names.
pub mod Framing
pub mod Encoding
use asio_owen.Prelude.{
  ℕ, Bool, true, false, not, ◌&&◌, ◌||◌, List, [], ◌∷◌, ◌++◌, ◌==◌, if◌then◌else◌, Option, some,
  none, Bytes, codes, length, trim, split_on, split_from, before_byte, after_byte, is_empty, any,
  keep, map, to_lower_byte,
}
use asio_owen.Http.Numbers.{parse_decimal_size}

abbrev pub Header : Type 0
Header = Bytes × Bytes

pub record HeaderParseState : Type 0 where
  pub content_length : Option ℕ
  pub invalid_header_name : Bool
  pub duplicate_content_length : Bool
  pub invalid_content_length : Bool
  pub is_chunked : Bool
  pub has_transfer_encoding : Bool
  pub invalid_transfer_encoding : Bool
  pub connection_close : Bool
  pub connection_keep_alive : Bool

abbrev pub initial_state : HeaderParseState
initial_state = record {
  content_length = none;
  invalid_header_name = false;
  duplicate_content_length = false;
  invalid_content_length = false;
  is_chunked = false;
  has_transfer_encoding = false;
  invalid_transfer_encoding = false;
  connection_close = false;
  connection_keep_alive = false;
}

pub record HeaderTokens : Type 0 where
  pub close : Bool
  pub keep_alive : Bool

-- Equality up to the case of ASCII letters.
unfoldable pub header_iequals : Bytes → Bytes → Bool
unfolding to_lower_byte
header_iequals [] [] = true
header_iequals (x ∷ a) (y ∷ b) = to_lower_byte x == to_lower_byte y && header_iequals a b
header_iequals _ _ = false

-- What `split_connection_tokens` adds to `out`.
unfoldable pub connection_tokens : Bytes → List Bytes
unfolding trim split_from
connection_tokens value = keep (λ token. not (is_empty token)) (map trim (split_on b',' value))

unfoldable pub split_connection_tokens : Bytes → HeaderTokens
unfolding connection_tokens header_iequals
split_connection_tokens value = record {
  close = any (λ token. header_iequals token (codes "close")) (connection_tokens value);
  keep_alive = any (λ token. header_iequals token (codes "keep-alive")) (connection_tokens value);
}

unfoldable pub note_length : Option ℕ → HeaderParseState → HeaderParseState
note_length none state = record state { invalid_content_length = true }
note_length (some n) state = elim state.content_length [
  | none ↦ record state { content_length = some n }
  | some m ↦
      if not (m == n)
      then record state { duplicate_content_length = true }
      else record state { content_length = some n }
]

-- One token of a `Transfer-Encoding` value; the flag is `saw_token`.
unfoldable pub note_encoding : HeaderParseState → Bytes → HeaderParseState
unfolding header_iequals
note_encoding state token =
    if is_empty token
    then record state { invalid_transfer_encoding = true }
    else let chunked = header_iequals token (codes "chunked") in
      record state {
        invalid_transfer_encoding =
            state.invalid_transfer_encoding || not chunked || state.is_chunked;
        is_chunked = state.is_chunked || chunked;
      }

unfoldable pub note_encodings : HeaderParseState → List Bytes → HeaderParseState
unfolding note_encoding
note_encodings state [] = state
note_encodings state (token ∷ tokens) = note_encodings (note_encoding state token) tokens

unfoldable pub note_transfer_encoding : Bytes → HeaderParseState → HeaderParseState
unfolding note_encodings trim split_from
note_transfer_encoding v state =
    let tokens = map trim (split_on b',' v) in
    let began = record state {
      invalid_transfer_encoding = state.invalid_transfer_encoding || state.has_transfer_encoding;
      has_transfer_encoding = true;
    } in
    let noted = note_encodings began tokens in
    let saw_token = any (λ token. not (is_empty token)) tokens in
    record noted { invalid_transfer_encoding = noted.invalid_transfer_encoding || not saw_token }

unfoldable pub note_connection : Bytes → HeaderParseState → HeaderParseState
unfolding split_connection_tokens
note_connection v state =
    let tokens = split_connection_tokens v in
    record state {
      connection_close = state.connection_close || tokens.close;
      connection_keep_alive = state.connection_keep_alive || tokens.keep_alive;
    }

-- The dispatch on the trimmed name, and the trimmed value.
unfoldable pub note_field : Bytes → Bytes → HeaderParseState → HeaderParseState
unfolding header_iequals note_length note_transfer_encoding note_connection parse_decimal_size
note_field k v state =
    if header_iequals k (codes "content-length")
    then note_length (parse_decimal_size v) state
    else if header_iequals k (codes "transfer-encoding")
    then note_transfer_encoding v state
    else if header_iequals k (codes "connection")
    then note_connection v state
    else state

unfoldable pub update_header_state : Bytes → Bytes → HeaderParseState → HeaderParseState
unfolding note_field trim
update_header_state k v state =
    let checked = record state {
      invalid_header_name = state.invalid_header_name || not (length (trim k) == length k);
    } in
    note_field (trim k) (trim v) checked

-- What the parser has so far: the fields in their order, and the state.
pub record Fields : Type 0 where
  pub out : List Header
  pub state : HeaderParseState

unfoldable pub parse_header_pair_into : Bytes → Bytes → Fields → Fields
unfolding update_header_state
parse_header_pair_into key value f = record {
  out = f.out ++ (trim key, trim value) ∷ [];
  state = update_header_state key value f.state;
}

unfoldable pub parse_header_line_into : Bytes → Fields → Fields
unfolding parse_header_pair_into after_byte before_byte
parse_header_line_into line f = elim (after_byte b':' line) [
  | none ↦ f
  | some value ↦ parse_header_pair_into (before_byte b':' line) value f
]

-- The pieces between the line ends `\r\n`.
unfoldable pub split_lines : Bytes → Bytes → List Bytes
split_lines piece [] = piece ∷ []
split_lines piece (c ∷ []) = (piece ++ c ∷ []) ∷ []
split_lines piece (c ∷ d ∷ rest) =
    let next = piece ∷ split_lines [] rest in
    let more = split_lines (piece ++ c ∷ []) (d ∷ rest) in
    if c == b'\r' && d == b'\n' then next else more

unfoldable pub parse_lines : List Bytes → Fields → Fields
unfolding parse_header_line_into
parse_lines [] f = f
parse_lines (line ∷ lines) f =
    parse_lines lines (if is_empty line then f else parse_header_line_into line f)

unfoldable pub parse_header_fields : Bytes → Fields → Fields
unfolding parse_lines split_lines
parse_header_fields header_lines f = parse_lines (split_lines [] header_lines) f

unfoldable pub is_hop_by_hop_header : Bytes → Bool
unfolding header_iequals
is_hop_by_hop_header k =
    header_iequals k (codes "connection")
    || header_iequals k (codes "keep-alive")
    || header_iequals k (codes "proxy-authenticate")
    || header_iequals k (codes "proxy-authorization")
    || header_iequals k (codes "te")
    || header_iequals k (codes "trailer")
    || header_iequals k (codes "transfer-encoding")
    || header_iequals k (codes "upgrade")

-- The names that the `Connection` fields list, behind those in `filtered`.
unfoldable pub add_connection_tokens : List Header → List Bytes → List Bytes
unfolding connection_tokens header_iequals
add_connection_tokens [] filtered = filtered
add_connection_tokens ((k, v) ∷ headers) filtered =
    add_connection_tokens headers
      (if header_iequals k (codes "connection") then filtered ++ connection_tokens v else filtered)

unfoldable pub contains_header_name : List Bytes → Bytes → Bool
unfolding header_iequals
contains_header_name names name = any (λ candidate. header_iequals candidate name) names
