-- ===== src/Http/Headers/Framing.antt =====
-- The framing of a body is unambiguous once the state is clean.
use asio_owen.Prelude.{
  ℕ, true, false, not, ◌||◌, List, [], ◌∷◌, ◌==◌, ◌≡◌, ◌⊎◌, inl, inr, refl, arith, Option, some,
  none, Bytes, codes, trim, before_byte, after_byte, All, Bool-cases, map, split_on, is_empty,
  length, All-imp, All-append,
}
use asio_owen.Http.Numbers.{parse_decimal_size}
use asio_owen.Http.Headers.{
  Header, HeaderParseState, Fields, header_iequals, note_length, note_field, note_transfer_encoding,
  note_connection, update_header_state, parse_header_pair_into, parse_header_line_into, split_lines,
  parse_lines, parse_header_fields, note_encodings, note_encoding, initial_state,
}

-- The length is known and agreed on.
abbrev pub IsSettled : HeaderParseState → Type 0
IsSettled s = (s.duplicate_content_length ≡ false) × (s.invalid_content_length ≡ false)

note_encodings_length :
    (tokens : List Bytes) (s : HeaderParseState)
    → let t = note_encodings s tokens in
      (t.content_length ≡ s.content_length)
      × (t.duplicate_content_length ≡ s.duplicate_content_length)
      × (t.invalid_content_length ≡ s.invalid_content_length)
unfolding note_encodings
note_encodings_length [] s = (refl, refl, refl)
note_encodings_length (token ∷ tokens) s =
    ground (arith, note_encodings_length tokens (note_encoding s token), one)
  where
    one :
        let t = note_encoding s token in
        (t.content_length ≡ s.content_length)
        × (t.duplicate_content_length ≡ s.duplicate_content_length)
        × (t.invalid_content_length ≡ s.invalid_content_length)
    one = unfold note_encoding in ground arith

note_transfer_encoding_length :
    (v : Bytes) (s : HeaderParseState)
    → let t = note_transfer_encoding v s in
      (t.content_length ≡ s.content_length)
      × (t.duplicate_content_length ≡ s.duplicate_content_length)
      × (t.invalid_content_length ≡ s.invalid_content_length)
unfolding note_transfer_encoding
note_transfer_encoding_length v s = note_encodings_length (map trim (split_on b',' v)) (record s {
  invalid_transfer_encoding = s.invalid_transfer_encoding || s.has_transfer_encoding;
  has_transfer_encoding = true;
})

-- A complaint is never withdrawn, and a length once taken is never changed.
record Grows (s t : HeaderParseState) : Type 0 where
  duplicate : s.duplicate_content_length ≡ true → t.duplicate_content_length ≡ true
  invalid : s.invalid_content_length ≡ true → t.invalid_content_length ≡ true
  kept : (n : ℕ) → s.content_length ≡ some n → t.content_length ≡ some n

note_length-Grows : (o : Option ℕ) (s : HeaderParseState) → Grows s (note_length o s)
unfolding note_length
note_length-Grows none s = record { duplicate = λ h. h; invalid = λ h. refl; kept = λ n h. h }
note_length-Grows (some m) s = record {
  duplicate = ground arith;
  invalid = ground arith;
  kept = λ n h. ground arith;
}

note_field-Grows : (k v : Bytes) (s : HeaderParseState) → Grows s (note_field k v s)
unfolding note_field note_connection
note_field-Grows k v s =
    let (a, b, c) = note_transfer_encoding_length v s in
    let g = note_length-Grows (parse_decimal_size v) s in
    record {
      duplicate = ground (arith, g.duplicate);
      invalid = ground (arith, g.invalid);
      kept = λ n h. ground (arith, g.kept n);
    }

update_header_state-Grows :
    (k v : Bytes) (s : HeaderParseState) → Grows s (update_header_state k v s)
unfolding update_header_state
update_header_state-Grows k v s =
    let checked = record s {
      invalid_header_name = s.invalid_header_name || not (length (trim k) == length k);
    } in
    let g = note_field-Grows (trim k) (trim v) checked in
    record { duplicate = g.duplicate; invalid = g.invalid; kept = g.kept }

note_length_settled :
    (o : Option ℕ) (s : HeaderParseState)
    → IsSettled (note_length o s)
    → (n : ℕ) × (o ≡ some n) × ((note_length o s).content_length ≡ some n)
unfolding note_length
note_length_settled none s h = absurd (ground arith)
note_length_settled (some n) s h = (n, refl, ground arith)

update_header_state_settled :
    (k v : Bytes) (s : HeaderParseState)
    → header_iequals (trim k) (codes "content-length") ≡ true
    → IsSettled (update_header_state k v s)
    → (n : ℕ) × (parse_decimal_size (trim v) ≡ some n)
      × ((update_header_state k v s).content_length ≡ some n)
unfolding update_header_state note_field
update_header_state_settled k v s e h =
    let checked = record s {
      invalid_header_name = s.invalid_header_name || not (length (trim k) == length k);
    } in
    rw e (note_length_settled (parse_decimal_size (trim v)) checked (rw e at h))

-- Every `Content-Length` among the fields is a number, and it is the one that was taken.
abbrev AgreesIf : HeaderParseState → Header → Type 0
AgreesIf s (k, v) =
    header_iequals k (codes "content-length") ≡ true
    → (n : ℕ) × (parse_decimal_size v ≡ some n) × (s.content_length ≡ some n)

abbrev HasOneLength : Fields → Type 0
HasOneLength f = IsSettled f.state → All (AgreesIf f.state) f.out

parse_header_pair_into-HasOneLength :
    (key value : Bytes) (f : Fields)
    → HasOneLength f
    → HasOneLength (parse_header_pair_into key value f)
unfolding parse_header_pair_into
parse_header_pair_into-HasOneLength key value f h settled =
    All-append (AgreesIf new) f.out ((trim key, trim value) ∷ []) earlier
      ((λ e. update_header_state_settled key value f.state e settled), tt)
  where
    new : HeaderParseState
    new = update_header_state key value f.state

    g : Grows f.state new
    g = update_header_state-Grows key value f.state

    was_settled : IsSettled f.state
    was_settled = (ground (arith, g.duplicate), ground (arith, g.invalid))

    earlier : All (AgreesIf new) f.out
    earlier =
        All-imp (AgreesIf f.state) (AgreesIf new)
          (λ hd old e. let (n, p, q) = old e in (n, p, g.kept n q)) f.out (h was_settled)

parse_header_line_into-HasOneLength :
    (line : Bytes) (f : Fields) → HasOneLength f → HasOneLength (parse_header_line_into line f)
unfolding parse_header_line_into
parse_header_line_into-HasOneLength line f h = go (after_byte b':' line)
  where
    go :
        (o : Option Bytes)
        → HasOneLength (elim o [
          | none ↦ f
          | some value ↦ parse_header_pair_into (before_byte b':' line) value f
        ])
    go none = h
    go (some value) = parse_header_pair_into-HasOneLength (before_byte b':' line) value f h

parse_lines-HasOneLength :
    (lines : List Bytes) (f : Fields) → HasOneLength f → HasOneLength (parse_lines lines f)
unfolding parse_lines
parse_lines-HasOneLength [] f h = h
parse_lines-HasOneLength (line ∷ lines) f h = elim (Bool-cases (is_empty line)) [
  | inl e ↦ rw (e, parse_lines) (parse_lines-HasOneLength lines f h)
  | inr e ↦
      rw (e, parse_lines)
        (parse_lines-HasOneLength lines (parse_header_line_into line f)
          (parse_header_line_into-HasOneLength line f h))
]

abbrev pub no_fields : Fields
no_fields = record { out = []; state = initial_state }

-- A field with another name, or a number that is the one in the state.
abbrev pub AgreesOn : HeaderParseState → Header → Type 0
AgreesOn s (k, v) =
    (header_iequals k (codes "content-length") ≡ false)
    ⊎ ((n : ℕ) × (parse_decimal_size v ≡ some n) × (s.content_length ≡ some n))

AgreesIf-AgreesOn : (s : HeaderParseState) (h : Header) → AgreesIf s h → AgreesOn s h
AgreesIf-AgreesOn s (k, v) h = elim (Bool-cases (header_iequals k (codes "content-length"))) [
  | inl e ↦ inr (h e)
  | inr e ↦ inl e
]

-- If the state complains of no length, every `Content-Length` of the block is a number, and all
-- of them are the one that the state holds.
pub parse_header_fields_one_length :
    (text : Bytes)
    → IsSettled (parse_header_fields text no_fields).state
    → All
        (AgreesOn (parse_header_fields text no_fields).state)
        (parse_header_fields text no_fields).out
unfolding parse_header_fields
parse_header_fields_one_length text h =
    let f = parse_header_fields text no_fields in
    All-imp (AgreesIf f.state) (AgreesOn f.state) (AgreesIf-AgreesOn f.state) f.out
      (parse_lines-HasOneLength (split_lines [] text) no_fields (λ _. tt) h)
