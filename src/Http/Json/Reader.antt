-- ===== src/Http/Json/Reader.antt =====
-- What a reader of JSON makes of the inside of a string literal (RFC 8259), byte by byte. It stands
-- beside `src/http/response.hpp`, which only writes such literals.
use asio_owen.Prelude.{
  ℕ, ◌+◌, ◌*◌, ◌==◌, ltb, suc, zero, [], ◌∷◌, if◌then◌else◌, Option, some, none, Bytes,
}
use asio_owen.Http.Numbers.{hex_digit_value}

-- Where the reader stands: in the text, behind a backslash, or before so many hexadecimal digits.
pub data Reading : Type 0 where
  in_text : Reading
  behind_backslash : Reading
  in_digits : ℕ → ℕ → Reading

pub data Reaction : Type 0 where
  emit : ℕ → Reaction
  move : Reading → Reaction
  close : Reaction
  turn_down : Reaction

unfoldable pub read_text : ℕ → Reaction
read_text c =
    if c == 34
    then close
    else if c == 92
    then move behind_backslash
    else if ltb c 32
    then turn_down
    else emit c

unfoldable pub read_escape : ℕ → Reaction
read_escape c =
    if c == 34
    then emit 34
    else if c == 92
    then emit 92
    else if c == b'/'
    then emit b'/'
    else if c == b'b'
    then emit 8
    else if c == b'f'
    then emit 12
    else if c == b'n'
    then emit 10
    else if c == b'r'
    then emit 13
    else if c == b't'
    then emit 9
    else if c == b'u'
    then move (in_digits 3 0)
    else turn_down

-- A code point of one byte in UTF-8. The reader takes no longer one from an escape.
unfoldable pub emit_ascii : ℕ → Reaction
emit_ascii value = if ltb value 128 then emit value else turn_down

-- The next digit, with so many still behind it.
unfoldable pub read_digit : ℕ → ℕ → Option ℕ → Reaction
unfolding emit_ascii
read_digit left value none = turn_down
read_digit zero value (some d) = emit_ascii (value * 16 + d)
read_digit (suc left) value (some d) = move (in_digits left (value * 16 + d))

unfoldable pub react : Reading → ℕ → Reaction
unfolding read_text read_escape read_digit hex_digit_value
react in_text c = read_text c
react behind_backslash c = read_escape c
react (in_digits left value) c = read_digit left value (hex_digit_value c)

abbrev pub push : ℕ → Option (Bytes × Bytes) → Option (Bytes × Bytes)
push c none = none
push c (some (text, rest)) = some (c ∷ text, rest)

-- The text up to the closing quote, and what stands behind the quote.
unfoldable pub read_string : Reading → Bytes → Option (Bytes × Bytes)
unfolding react
read_string r [] = none
read_string r (c ∷ s) = elim (react r c) [
  | emit b ↦ push b (read_string in_text s)
  | move next ↦ read_string next s
  | close ↦ some ([], s)
  | turn_down ↦ none
]
