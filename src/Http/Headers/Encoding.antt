-- ===== src/Http/Headers/Encoding.antt =====
-- `Transfer-Encoding` is accepted only as the single coding `chunked`, stated once.
use asio_owen.Prelude.{
  true, false, not, ◌||◌, List, [], ◌∷◌, ◌≡◌, ◌↔◌, ◌⊎◌, refl, arith, Bytes, codes, trim, any, map,
  split_on, is_empty,
}
use asio_owen.Http.Headers.{
  HeaderParseState, header_iequals, note_transfer_encoding, note_encodings, note_encoding,
}

-- A complaint about the coding is not withdrawn.
note_encodings_invalid :
    (tokens : List Bytes) (s : HeaderParseState)
    → s.invalid_transfer_encoding ≡ true
    → (note_encodings s tokens).invalid_transfer_encoding ≡ true
unfolding note_encodings note_encoding
note_encodings_invalid [] s h = h
note_encodings_invalid (token ∷ tokens) s h =
    note_encodings_invalid tokens (note_encoding s token) (ground arith)

-- Once `chunked` was seen any further token is a fault.
note_encodings_chunked :
    (tokens : List Bytes) (s : HeaderParseState)
    → s.is_chunked ≡ true
    → (note_encodings s tokens).invalid_transfer_encoding ≡ false
    → tokens ≡ []
unfolding note_encodings note_encoding
note_encodings_chunked [] s h k = refl
note_encodings_chunked (token ∷ tokens) s h k =
    ground (arith, note_encodings_invalid tokens (note_encoding s token))

-- The tokens are one, and it is `chunked`.
abbrev pub IsChunkedOnly : List Bytes → Type 0
IsChunkedOnly [] = ⊥
IsChunkedOnly (token ∷ []) = header_iequals token (codes "chunked") ≡ true
IsChunkedOnly (token ∷ t ∷ tokens) = ⊥

header_iequals_empty : (t : Bytes) → header_iequals t (codes "chunked") ≡ true → is_empty t ≡ false
unfolding header_iequals
header_iequals_empty [] h = cc
header_iequals_empty (c ∷ t) h = refl

abbrev Accepted : HeaderParseState → List Bytes → Type 0
Accepted s tokens =
    ((note_encodings s tokens).invalid_transfer_encoding
      || not (any (λ token. not (is_empty token)) tokens))
    ≡ false

Accepted-iff :
    (tokens : List Bytes) (s : HeaderParseState)
    → s.is_chunked ≡ false
    → s.invalid_transfer_encoding ≡ false
    → Accepted s tokens ↔ IsChunkedOnly tokens
unfolding note_encodings
Accepted-iff [] s b c = ground arith
Accepted-iff (token ∷ []) s b c = unfold note_encoding in ground (arith, header_iequals_empty token)
Accepted-iff (token ∷ t ∷ tokens) s b c = ((λ h. refused (ground arith)), (λ h. absurd h))
  where
    refused : (note_encodings s (token ∷ t ∷ tokens)).invalid_transfer_encoding ≡ false → ⊥
    refused h = ground (
      arith,
      note_encodings_chunked (t ∷ tokens) (note_encoding s token),
      note_encodings_invalid (t ∷ tokens) (note_encoding s token),
      first,
    )
      where
        first :
            ((note_encoding s token).is_chunked ≡ true)
            ⊎ ((note_encoding s token).invalid_transfer_encoding ≡ true)
        first = unfold note_encoding in ground arith

-- From a state with no coding yet, a value is accepted exactly when it is the one token `chunked`.
pub note_transfer_encoding_valid :
    (v : Bytes) (s : HeaderParseState)
    → s.has_transfer_encoding ≡ false
    → s.is_chunked ≡ false
    → s.invalid_transfer_encoding ≡ false
    → ((note_transfer_encoding v s).invalid_transfer_encoding ≡ false)
      ↔ IsChunkedOnly (map trim (split_on b',' v))
unfolding note_transfer_encoding
note_transfer_encoding_valid v s a b c =
    Accepted-iff (map trim (split_on b',' v))
      (record s {
        invalid_transfer_encoding = s.invalid_transfer_encoding || s.has_transfer_encoding;
        has_transfer_encoding = true;
      })
      b (ground arith)

-- A second `Transfer-Encoding` is never accepted.
pub note_transfer_encoding_twice :
    (v : Bytes) (s : HeaderParseState)
    → s.has_transfer_encoding ≡ true
    → (note_transfer_encoding v s).invalid_transfer_encoding ≡ true
unfolding note_transfer_encoding
note_transfer_encoding_twice v s h = ground (
  arith,
  note_encodings_invalid (map trim (split_on b',' v)) (record s {
    invalid_transfer_encoding = s.invalid_transfer_encoding || s.has_transfer_encoding;
    has_transfer_encoding = true;
  }),
)
