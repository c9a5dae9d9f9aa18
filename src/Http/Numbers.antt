-- ===== src/Http/Numbers.antt =====
-- Numbers in `src/http/http_protocol.hpp`: decimal and hexadecimal sizes, and the status line.
pub mod Bounds
pub mod Print
use asio_owen.Prelude.{
  ℕ, zero, suc, ◌%◌, ◌+◌, ◌-◌, ◌*◌, ◌/◌, ◌^◌, ltb, leb, Bool, true, false, not, ◌&&◌, ◌||◌, List,
  [], ◌∷◌, ◌==◌, if◌then◌else◌, Option, some, none, Bytes, codes, trim, before_byte, after_byte,
  starts_with, is_empty, length,
}

-- `std::numeric_limits<size_t>::max()` on a 64-bit machine.
abbrev pub size_max : ℕ
size_max = 2 ^ 64 - 1

unfoldable pub decimal_digit : ℕ → Option ℕ
decimal_digit c = if ltb c b'0' || ltb b'9' c then none else some (c - b'0')

unfoldable pub hex_digit_value : ℕ → Option ℕ
hex_digit_value c =
    if leb b'0' c && leb c b'9'
    then some (c - b'0')
    else if leb b'a' c && leb c b'f'
    then some (c - b'a' + 10)
    else if leb b'A' c && leb c b'F'
    then some (c - b'A' + 10)
    else none

-- The loop of both parsers: the next digit, the test against overflow, the new value.
unfoldable pub accumulate : ℕ → (ℕ → Option ℕ) → ℕ → Bytes → Option ℕ
accumulate base digit value [] = some value
accumulate base digit value (c ∷ rest) = elim (digit c) [
  | none ↦ none
  | some d ↦
      let more = accumulate base digit (value * base + d) rest in
      if ltb ((size_max - d) / base) value then none else more
]

unfoldable pub parse_decimal_size : Bytes → Option ℕ
unfolding trim accumulate decimal_digit
parse_decimal_size s =
    let trimmed = trim s in if is_empty trimmed then none else accumulate 10 decimal_digit 0 trimmed

-- A chunk-size line; what follows a semicolon is dropped.
unfoldable pub parse_hex_size_line : Bytes → Option ℕ
unfolding trim before_byte accumulate hex_digit_value
parse_hex_size_line line =
    let digits = trim (before_byte b';' line) in
    if is_empty digits then none else accumulate 16 hex_digit_value 0 digits

-- The code and the reason phrase. Both versions are nine bytes long, up to the first space.
unfoldable pub parse_http_status_line : Bytes → Option (ℕ × Bytes)
unfolding parse_decimal_size starts_with after_byte before_byte
parse_http_status_line line =
    if not (starts_with (codes "HTTP/1.0 ") line) && not (starts_with (codes "HTTP/1.1 ") line)
    then none
    else elim (after_byte b' ' line) [
      | none ↦ none
      | some rest ↦ elim (after_byte b' ' rest) [
        | none ↦ none
        | some reason ↦ elim (parse_decimal_size (before_byte b' ' rest)) [
          | none ↦ none
          | some code ↦
              if not (length (before_byte b' ' rest) == 3) || ltb code 100 || ltb 599 code
              then none
              else some (code, reason)
        ]
      ]
    ]

-- `std::to_string` of an unsigned number: the digits before `tail`. A number below 2^64 has at most
-- twenty of them.
unfoldable pub digits_before : ℕ → ℕ → Bytes → Bytes
digits_before zero n tail = tail
digits_before (suc fuel) n tail =
    let more = digits_before fuel (n / 10) ((b'0' + n % 10) ∷ tail) in
    if ltb n 10 then (b'0' + n) ∷ tail else more

unfoldable pub to_string : ℕ → Bytes
unfolding digits_before
to_string n = digits_before 20 n []
