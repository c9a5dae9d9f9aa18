-- ===== src/Http/Json/Escape.antt =====
-- The literals that `json_escape` writes, read back.
use asio_owen.Prelude.{
  ℕ, ◌*◌, ◌+◌, ◌/◌, ◌%◌, ◌<◌, ltb, ◌==◌, [], ◌∷◌, ◌++◌, append_assoc, some, Bytes, codes, ℤ, ◌≡◌,
  ◌⊎◌, true, false, refl, ap, ◌∙◌, arith, inl, inr, Bool-cases, ltb→lt, ==_iff,
}
use asio_owen.Http.Numbers.{hex_digit_value}
use asio_owen.Http.Json.{hex_char, unicode_escape, escape_byte, json_escape, int_text, json_resp}
use asio_owen.Http.Json.Reader.{
  Reading, in_text, behind_backslash, in_digits, read_text, read_escape, read_digit, emit_ascii,
  react, push, emit, move, read_string,
}

hex_digit_value-hex_char : (d : ℕ) → d < 16 → hex_digit_value (hex_char d) ≡ some d
unfolding hex_digit_value hex_char
hex_digit_value-hex_char d small = ground arith

read_string_emit :
    (r : Reading) (c b : ℕ) (s : Bytes)
    → react r c ≡ emit b
    → read_string r (c ∷ s) ≡ push b (read_string in_text s)
unfolding read_string
read_string_emit r c b s e = rw (read_string, e) refl

read_string_move :
    (r next : Reading) (c : ℕ) (s : Bytes)
    → react r c ≡ move next
    → read_string r (c ∷ s) ≡ read_string next s
unfolding read_string
read_string_move r next c s e = rw (read_string, e) refl

react-hex_char :
    (left value d : ℕ)
    → d < 16
    → react (in_digits left value) (hex_char d) ≡ read_digit left value (some d)
unfolding react
react-hex_char left value d small = ap (read_digit left value) (hex_digit_value-hex_char d small)

emit_ascii_lem : (c : ℕ) → c < 128 → emit_ascii c ≡ emit c
unfolding emit_ascii
emit_ascii_lem c ascii = ground arith

-- Four digits are read as the value they spell.
read_string-unicode_escape :
    (c : ℕ) (s : Bytes)
    → c < 128
    → read_string in_text (unicode_escape c ++ s) ≡ push c (read_string in_text s)
unfolding unicode_escape read_digit emit_ascii react read_text read_escape
read_string-unicode_escape c s ascii =
    let d3 = c / 16 / 16 / 16 % 16 in
    let d2 = c / 16 / 16 % 16 in
    let d1 = c / 16 % 16 in
    let d0 = c % 16 in
    let spells : (((0 * 16 + d3) * 16 + d2) * 16 + d1) * 16 + d0 ≡ c = omega arith in
    read_string_move in_text behind_backslash 92 _ refl
    ∙ read_string_move behind_backslash (in_digits 3 0) b'u' _ refl
    ∙ read_string_move (in_digits 3 0) (in_digits 2 (0 * 16 + d3)) (hex_char d3) _
        (react-hex_char 3 0 d3 (omega arith))
    ∙ read_string_move (in_digits 2 (0 * 16 + d3)) (in_digits 1 ((0 * 16 + d3) * 16 + d2))
        (hex_char d2) _ (react-hex_char 2 (0 * 16 + d3) d2 (omega arith))
    ∙ read_string_move (in_digits 1 ((0 * 16 + d3) * 16 + d2))
        (in_digits 0 (((0 * 16 + d3) * 16 + d2) * 16 + d1)) (hex_char d1) _
        (react-hex_char 1 ((0 * 16 + d3) * 16 + d2) d1 (omega arith))
    ∙ read_string_emit (in_digits 0 (((0 * 16 + d3) * 16 + d2) * 16 + d1)) (hex_char d0) c s (
        react-hex_char 0 (((0 * 16 + d3) * 16 + d2) * 16 + d1) d0 (omega arith)
        ∙ ap emit_ascii spells
        ∙ emit_ascii_lem c ascii)

-- A byte that is not escaped stands for itself.
react-plain :
    (c : ℕ) → (c == 34) ≡ false → (c == 92) ≡ false → ltb c 32 ≡ false → react in_text c ≡ emit c
unfolding react read_text
react-plain c quote backslash control = ground arith

control-cases :
    (c : ℕ)
    → (c == 34) ≡ false
    → (c == 92) ≡ false
    → c < 32
    → (c ≡ 8) ⊎ (c ≡ 12) ⊎ (c ≡ 10) ⊎ (c ≡ 13) ⊎ (c ≡ 9) ⊎ (escape_byte c ≡ unicode_escape c)
unfolding escape_byte
control-cases c not_quote not_backslash control = ground arith

below : (c : ℕ) → ltb c 32 ≡ true → c < 128
below c control = ground (arith, ltb→lt c 32 control)

-- The two-byte escapes, and the two cases that are left.
pub escape_byte-cases :
    (c : ℕ)
    → ((e : ℕ) × (escape_byte c ≡ 92 ∷ e ∷ []) × (react behind_backslash e ≡ emit c))
      ⊎ ((c < 128) × (escape_byte c ≡ unicode_escape c))
      ⊎ ((escape_byte c ≡ c ∷ []) × (react in_text c ≡ emit c))
unfolding escape_byte react read_escape read_text
escape_byte-cases c = elim (Bool-cases (c == 34)) [
  | inl e ↦ rw ((==_iff c 34).0 e) (inl (34, refl, refl))
  | inr not_quote ↦ elim (Bool-cases (c == 92)) [
    | inl e ↦ rw ((==_iff c 92).0 e) (inl (92, refl, refl))
    | inr not_backslash ↦ elim (Bool-cases (ltb c 32)) [
      | inl control ↦ elim (control-cases c not_quote not_backslash (ltb→lt c 32 control)) [
        | inl e ↦ rw e (inl (b'b', refl, refl))
        | inr (inl e) ↦ rw e (inl (b'f', refl, refl))
        | inr (inr (inl e)) ↦ rw e (inl (b'n', refl, refl))
        | inr (inr (inr (inl e))) ↦ rw e (inl (b'r', refl, refl))
        | inr (inr (inr (inr (inl e)))) ↦ rw e (inl (b't', refl, refl))
        | inr (inr (inr (inr (inr written)))) ↦ inr (inl (below c control, written))
      ]
      | inr no_control ↦ inr (inr (ground arith, react-plain c not_quote not_backslash no_control))
    ]
  ]
]

-- One byte that is escaped is read as itself.
read_string-escape_byte :
    (c : ℕ) (s : Bytes) → read_string in_text (escape_byte c ++ s) ≡ push c (read_string in_text s)
unfolding react read_text
read_string-escape_byte c s = elim (escape_byte-cases c) [
  | inl (e, written, read) ↦
      ap (λ t. read_string in_text (t ++ s)) written
      ∙ read_string_move in_text behind_backslash 92 (e ∷ s) refl
      ∙ read_string_emit behind_backslash e c s read
  | inr (inl (ascii, written)) ↦
      ap (λ t. read_string in_text (t ++ s)) written ∙ read_string-unicode_escape c s ascii
  | inr (inr (written, read)) ↦
      ap (λ t. read_string in_text (t ++ s)) written ∙ read_string_emit in_text c c s read
]

read_string-json_escape :
    (text rest : Bytes) → read_string in_text (json_escape text ++ 34 ∷ rest) ≡ some (text, rest)
unfolding read_string react read_text json_escape
read_string-json_escape [] rest = refl
read_string-json_escape (c ∷ text) rest =
    ap (read_string in_text) (append_assoc (escape_byte c) (json_escape text) (34 ∷ rest))
    ∙ read_string-escape_byte c (json_escape text ++ 34 ∷ rest)
    ∙ ap (push c) (read_string-json_escape text rest)

-- An answer is its code, then a literal that a reader closes at the quote `json_resp` wrote, not
-- earlier and not later, having read exactly the message, whatever bytes are in it; only the data
-- follow.
pub json_resp-message :
    (code : ℤ) (msg data_text : Bytes)
    → (literal : Bytes) × (json_resp code msg data_text
        ≡ codes "{\"code\":" ++ int_text code ++ codes ",\"msg\":\"" ++ literal)
      × (read_string in_text literal ≡ some (msg, codes ",\"data\":" ++ data_text ++ codes "}"))
unfolding json_resp
json_resp-message code msg data_text = (
  json_escape msg ++ 34 ∷ (codes ",\"data\":" ++ data_text ++ codes "}"),
  simp append_assoc,
  read_string-json_escape msg (codes ",\"data\":" ++ data_text ++ codes "}"),
)
