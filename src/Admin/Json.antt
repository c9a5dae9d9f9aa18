-- ===== src/Admin/Json.antt =====
-- The tokens that `JsonReader` of `src/app/admin/config_admin_parse.cpp` reads. Its
-- `pos_` only moves forward: it is the text that is left here. Where the source returns `nullopt`
-- or `false` the text of the error is empty, since the caller has its own.
pub mod Ends
pub mod Strings
pub mod Digits
use asio_owen.Prelude.{
  ℕ, suc, zero, ◌+◌, ◌-◌, ◌*◌, ◌/◌, ◌%◌, ◌^◌, ◌==◌, ltb, leb, Bool, true, false, ◌||◌, ◌&&◌, not,
  List, [], ◌∷◌, ◌++◌, if◌then◌else◌, Option, some, none, Bytes, codes, is_space, is_digit,
  read_digits, trim_left, starts_with, drop, length, ℤ, pos, negsuc,
}

-- What was read, and the text behind it. `unfinished` is a loop that ran out of fuel.
pub data Parsed (A : Type 0) : Type 0 where
  parsed : A → Bytes → Parsed A
  refused : Bytes → Parsed A
  unfinished : Parsed A

abbrev pub and_then : {A B : Type 0} → Parsed A → (A → Bytes → Parsed B) → Parsed B
and_then (parsed a rest) next = next a rest
and_then (refused error) next = refused error
and_then unfinished next = unfinished

-- `if (!value) return fail(error)`
abbrev pub or_fail : {A : Type 0} → Bytes → Parsed A → Parsed A
or_fail error (parsed a rest) = parsed a rest
or_fail error (refused _) = refused error
or_fail error unfinished = unfinished

unfoldable pub skip_ws : Bytes → Bytes
unfolding trim_left
skip_ws s = trim_left s

abbrev pub after_char : ℕ → Bytes → Option Bytes
after_char c [] = none
after_char c (d ∷ s) = if d == c then some s else none

unfoldable pub consume : ℕ → Bytes → Option Bytes
unfolding skip_ws
consume c s = after_char c (skip_ws s)

unfoldable pub expect : ℕ → Bytes → Bytes → Parsed Unit
unfolding consume
expect c error s = elim (consume c s) [ none ↦ refused error | some rest ↦ parsed tt rest ]

-- `none` is -1.
unfoldable pub hex_value : ℕ → Option ℕ
hex_value c =
    if leb b'0' c && leb c b'9'
    then some (c - b'0')
    else if leb b'a' c && leb c b'f'
    then some (c - b'a' + 10)
    else if leb b'A' c && leb c b'F'
    then some (c - b'A' + 10)
    else none

-- A sum of bits that do not overlap is their `|`.
unfoldable pub append_utf8 : ℕ → Bytes
append_utf8 cp =
    if leb cp 0x7f
    then cp ∷ []
    else if leb cp 0x7ff
    then (0xc0 + cp / 64) ∷ (0x80 + cp % 64) ∷ []
    else if leb cp 0xffff
    then (0xe0 + cp / 4096) ∷ (0x80 + cp / 64 % 64) ∷ (0x80 + cp % 64) ∷ []
    else (0xf0 + cp / 262144)
      ∷ (0x80 + cp / 4096 % 64)
      ∷ (0x80 + cp / 64 % 64)
      ∷ (0x80 + cp % 64)
      ∷ []

-- The digits of a `\u` that are still to come.
unfoldable pub hex_digits : ℕ → ℕ → Bytes → Option (ℕ × Bytes)
unfolding hex_value
hex_digits zero cp s = some (cp, s)
hex_digits (suc n) cp [] = none
hex_digits (suc n) cp (c ∷ s) = elim (hex_value c) [
  | none ↦ none
  | some d ↦ hex_digits n (cp * 16 + d) s
]

-- One turn of the loop of `parse_string`.
pub data Piece : Type 0 where
  closing : Bytes → Piece
  text : Bytes → Bytes → Piece
  not_text : Piece

abbrev pub unicode_piece : Option (ℕ × Bytes) → Piece
unicode_piece none = not_text
unicode_piece (some (cp, rest)) = text (append_utf8 cp) rest

unfoldable pub escape_piece : Bytes → Piece
unfolding append_utf8 hex_digits
escape_piece [] = not_text
escape_piece (e ∷ s) =
    if e == 34
    then text (34 ∷ []) s
    else if e == 92
    then text (92 ∷ []) s
    else if e == b'/'
    then text (b'/' ∷ []) s
    else if e == b'b'
    then text (8 ∷ []) s
    else if e == b'f'
    then text (12 ∷ []) s
    else if e == b'n'
    then text (10 ∷ []) s
    else if e == b'r'
    then text (13 ∷ []) s
    else if e == b't'
    then text (9 ∷ []) s
    else if e == b'u'
    then unicode_piece (hex_digits 4 0 s)
    else not_text

unfoldable pub string_piece : ℕ → Bytes → Piece
unfolding escape_piece
string_piece c s =
    if c == 34
    then closing s
    else if ltb c 32
    then not_text
    else if not (c == 92)
    then text (c ∷ []) s
    else escape_piece s

unfoldable pub string_loop : ℕ → Bytes → Parsed Bytes
unfolding string_piece
string_loop fuel [] = refused []
string_loop zero (c ∷ s) = unfinished
string_loop (suc fuel) (c ∷ s) = elim (string_piece c s) [
  | closing rest ↦ parsed [] rest
  | text out rest ↦ and_then (string_loop fuel rest) (λ more rest. parsed (out ++ more) rest)
  | not_text ↦ refused []
]

abbrev pub string_at : Bytes → Parsed Bytes
string_at [] = refused []
string_at (c ∷ s) = if c == 34 then string_loop (length s) s else refused []

unfoldable pub parse_string : Bytes → Parsed Bytes
unfolding skip_ws string_loop
parse_string s = string_at (skip_ws s)

abbrev pub with_sign : Bool → ℕ → ℤ
with_sign true (suc n) = negsuc n
with_sign _ n = pos n

-- The digits, within the range of an `int64_t`.
unfoldable pub read_number : Bool → Bytes → Parsed ℤ
unfolding read_digits
read_number negative s =
    let (value, n) = read_digits 0 0 s in
    if n == 0 || ltb (if negative then 2 ^ 63 else 2 ^ 63 - 1) value
    then refused []
    else parsed (with_sign negative value) (drop n s)

abbrev pub number_at : Bytes → Parsed ℤ
number_at [] = refused []
number_at (c ∷ s) = if c == b'-' then read_number true s else read_number false (c ∷ s)

unfoldable pub parse_int64 : Bytes → Parsed ℤ
unfolding skip_ws read_number
parse_int64 s = number_at (skip_ws s)
