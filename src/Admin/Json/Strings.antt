-- ===== src/Admin/Json/Strings.antt =====
-- What `json_escape` of `src/http/response.hpp` writes, `parse_string` reads.
use asio_owen.Prelude.{
  ℕ, suc, zero, ◌+◌, ◌*◌, ◌/◌, ◌%◌, ◌≤◌, ◌<◌, [], ◌∷◌, ◌++◌, append_assoc, some, Bytes, length,
  is_space, trim_left, ◌≡◌, refl, ap, ◌∙◌, arith, inl, inr,
}
use asio_owen.Http.Json.{hex_char, unicode_escape, escape_byte, json_escape}
use asio_owen.Http.Json.Reader.{in_text, behind_backslash, react, read_text, read_escape, emit}
use asio_owen.Http.Json.Escape.{escape_byte-cases}
use asio_owen.Admin.Json.{
  parsed, and_then, skip_ws, hex_value, append_utf8, hex_digits, text, unicode_piece, escape_piece,
  string_piece, string_loop, parse_string,
}

escape_piece-read :
    (e c : ℕ) (s : Bytes)
    → react behind_backslash e ≡ emit c
    → escape_piece (e ∷ s) ≡ text (c ∷ []) s
unfolding react read_escape escape_piece
escape_piece-read e c s h = ground arith

string_piece-read :
    (c b : ℕ) (s : Bytes) → react in_text c ≡ emit b → string_piece c s ≡ text (b ∷ []) s
unfolding react read_text string_piece
string_piece-read c b s h = ground arith

hex_value-hex_char : (d : ℕ) → d < 16 → hex_value (hex_char d) ≡ some d
unfolding hex_value hex_char
hex_value-hex_char d small = ground arith

append_utf8_ascii : (c : ℕ) → c < 128 → append_utf8 c ≡ c ∷ []
unfolding append_utf8
append_utf8_ascii c small = ground arith

hex_digits_next :
    (n cp d : ℕ) (s : Bytes)
    → d < 16
    → hex_digits (suc n) cp (hex_char d ∷ s) ≡ hex_digits n (cp * 16 + d) s
unfolding hex_digits
hex_digits_next n cp d s small = rw (hex_digits, hex_value-hex_char d small) refl

hex_digits_done : (cp : ℕ) (s : Bytes) → hex_digits 0 cp s ≡ some (cp, s)
unfolding hex_digits
hex_digits_done cp s = refl

unicode_lem :
    (c : ℕ) (s : Bytes)
    → c < 128
    → hex_digits 4 0 (
        hex_char (c / 16 / 16 / 16 % 16)
        ∷ hex_char (c / 16 / 16 % 16)
        ∷ hex_char (c / 16 % 16)
        ∷ hex_char (c % 16)
        ∷ s)
      ≡ some (c, s)
unicode_lem c s small =
    let d3 = c / 16 / 16 / 16 % 16 in
    let d2 = c / 16 / 16 % 16 in
    let d1 = c / 16 % 16 in
    let d0 = c % 16 in
    hex_digits_next 3 0 d3 _ (omega arith)
    ∙ hex_digits_next 2 (0 * 16 + d3) d2 _ (omega arith)
    ∙ hex_digits_next 1 ((0 * 16 + d3) * 16 + d2) d1 _ (omega arith)
    ∙ hex_digits_next 0 (((0 * 16 + d3) * 16 + d2) * 16 + d1) d0 s (omega arith)
    ∙ hex_digits_done _ s
    ∙ ap (λ n. some (n, s)) (omega arith)

-- The piece that an escaped byte is.
abbrev IsWritten : ℕ → Bytes → Type 0
IsWritten c s =
    (d : ℕ) × (t : Bytes) × (escape_byte c ++ s ≡ d ∷ t)
    × (string_piece d t ≡ text (c ∷ []) s)
    × (length s ≤ length t)

escape_byte-IsWritten : (c : ℕ) (s : Bytes) → IsWritten c s
unfolding string_piece escape_piece unicode_escape
escape_byte-IsWritten c s = elim (escape_byte-cases c) [
  | inl (e, written, read) ↦
      (92, e ∷ s, ap (λ t. t ++ s) written, escape_piece-read e c s read, omega arith)
  | inr (inl (ascii, written)) ↦ (
    92,
    _,
    ap (λ t. t ++ s) written,
    ap unicode_piece (unicode_lem c s ascii) ∙ ap (λ t. text t s) (append_utf8_ascii c ascii),
    omega arith,
  )
  | inr (inr (written, read)) ↦
      (c, s, ap (λ t. t ++ s) written, string_piece-read c c s read, omega arith)
]

string_loop-text :
    (fuel d : ℕ) (t out rest : Bytes)
    → string_piece d t ≡ text out rest
    → string_loop (suc fuel) (d ∷ t)
      ≡ and_then (string_loop fuel rest) (λ more rest. parsed (out ++ more) rest)
unfolding string_loop
string_loop-text fuel d t out rest e = rw (string_loop, e) refl

string_loop-json_escape :
    (fuel : ℕ) (s rest : Bytes)
    → length (json_escape s ++ 34 ∷ rest) ≤ fuel
    → string_loop fuel (json_escape s ++ 34 ∷ rest) ≡ parsed s rest
unfolding json_escape string_loop string_piece
string_loop-json_escape zero [] rest h = absurd (omega arith)
string_loop-json_escape (suc fuel) [] rest h = refl
string_loop-json_escape zero (c ∷ s) rest h =
    let behind = json_escape s ++ 34 ∷ rest in
    let (d, t, e, piece, l) = escape_byte-IsWritten c behind in
    absurd
      (omega (arith, h, ap length (append_assoc (escape_byte c) (json_escape s) (34 ∷ rest) ∙ e)))
string_loop-json_escape (suc fuel) (c ∷ s) rest h =
    let behind = json_escape s ++ 34 ∷ rest in
    let (d, t, e, piece, l) = escape_byte-IsWritten c behind in
    let written = append_assoc (escape_byte c) (json_escape s) (34 ∷ rest) ∙ e in
    ap (string_loop (suc fuel)) written
    ∙ string_loop-text fuel d t (c ∷ []) behind piece
    ∙ ap (λ p. and_then p (λ more rest. parsed ((c ∷ []) ++ more) rest))
        (string_loop-json_escape fuel s rest (omega (arith, h, l, ap length written)))

-- Any text that is written as a literal with the gateway's own escaping is read back as it was, and
-- the reader stops behind the closing quote.
pub parse_string-json_escape :
    (s rest : Bytes) → parse_string (34 ∷ json_escape s ++ 34 ∷ rest) ≡ parsed s rest
unfolding parse_string skip_ws is_space trim_left
parse_string-json_escape s rest = string_loop-json_escape _ s rest (omega arith)
