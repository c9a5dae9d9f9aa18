-- ===== src/Security/Path.antt =====
-- `src/security/path_normalize.hpp`: percent decoding, dot segments, repeated slashes, lower case.
-- `NormalizedPath` is `ok path`, or `err` with the `error` that comes with `valid = false`.
pub mod Decode
pub mod Normal
pub mod Stable
use asio_owen.Prelude.{
  ℕ, ◌+◌, ◌*◌, ◌-◌, Bool, true, false, not, ◌&&◌, ◌||◌, List, [], ◌∷◌, ◌++◌, ◌==◌, leb,
  if◌then◌else◌, Bytes, codes, bytes_eq, has_byte, before_byte, lower, to_lower_byte, is_empty,
  Outcome, ok, err, ◌>>=◌, map_ok,
}

pub data PathError : Type 0 where
  invalid_encoding unsafe_encoded unsafe_char residual_encoding : PathError

unfoldable pub is_hex_char : ℕ → Bool
is_hex_char c = leb b'0' c && leb c b'9' || leb b'A' c && leb c b'F' || leb b'a' c && leb c b'f'

unfoldable pub hex_value : ℕ → ℕ
unfolding to_lower_byte
hex_value c = if leb b'0' c && leb c b'9' then c - b'0' else to_lower_byte c - b'a' + 10

-- NUL, the slash and the backslash.
unfoldable pub is_separator : ℕ → Bool
is_separator c = c == 0 || c == b'/' || c == b'\\'

-- What one round of the loop appends for `%` and two more bytes: `(h << 4) | l`, both below 16.
unfoldable pub decode_triple : ℕ → ℕ → Outcome PathError ℕ
unfolding is_hex_char hex_value is_separator
decode_triple h l =
    if not (is_hex_char h) || not (is_hex_char l)
    then err invalid_encoding
    else if is_separator (hex_value h * 16 + hex_value l)
    then err unsafe_encoded
    else ok (hex_value h * 16 + hex_value l)

unfoldable pub decode_plain : ℕ → Outcome PathError ℕ
decode_plain c = if c == 0 || c == b'\\' then err unsafe_char else ok c

abbrev pub put {ℓ} :
    {A : Type ℓ} → Outcome PathError A → Outcome PathError (List A) → Outcome PathError (List A)
put m rest = m >>= λ c. map_ok (◌∷◌ c) rest

-- The loop of `percent_decode`. A `%` with fewer than two bytes behind it is copied.
unfoldable pub decode_loop : Bytes → Outcome PathError Bytes
unfolding decode_triple decode_plain
decode_loop [] = ok []
decode_loop (c ∷ []) = put (decode_plain c) (ok [])
decode_loop (c ∷ d ∷ []) = put (decode_plain c) (put (decode_plain d) (ok []))
decode_loop (c ∷ h ∷ l ∷ rest) =
    let coded = put (decode_triple h l) (decode_loop rest) in
    let plain = put (decode_plain c) (decode_loop (h ∷ l ∷ rest)) in
    if c == b'%' then coded else plain

unfoldable pub percent_decode : Bytes → Outcome PathError Bytes
unfolding decode_loop
percent_decode s =
    decode_loop s >>= λ result. if has_byte b'%' result then err residual_encoding else ok result

unfoldable pub pop_segment : List Bytes → List Bytes
pop_segment [] = []
pop_segment (_ ∷ segs) = segs

-- The vector of segments, its back first. An empty segment is dropped (`i > start`).
unfoldable pub push_segment : Bytes → List Bytes → List Bytes
unfolding bytes_eq pop_segment
push_segment seg stack =
    if is_empty seg || bytes_eq seg (codes ".")
    then stack
    else if bytes_eq seg (codes "..")
    then pop_segment stack
    else seg ∷ stack

-- The scan over the decoded bytes; `seg` is what stands between `start` and `i`.
unfoldable pub split_segments : Bytes → List Bytes → Bytes → List Bytes
unfolding push_segment
split_segments seg stack [] = push_segment seg stack
split_segments seg stack (c ∷ rest) =
    split_segments (if c == b'/' then [] else seg ++ c ∷ [])
      (if c == b'/' then push_segment seg stack else stack) rest

-- The segments joined by slashes, the stack's back first.
unfoldable pub join_onto : List Bytes → Bytes → Bytes
join_onto [] out = out
join_onto (seg ∷ []) out = seg ++ out
join_onto (seg ∷ s ∷ segs) out = join_onto (s ∷ segs) (b'/' ∷ (seg ++ out))

unfoldable pub assemble : Bool → List Bytes → Bytes
unfolding join_onto lower
assemble case_sensitive stack =
    b'/' ∷ (if case_sensitive then join_onto stack [] else lower (join_onto stack []))

unfoldable pub normalize_path : Bool → Bytes → Outcome PathError Bytes
unfolding before_byte percent_decode split_segments assemble
normalize_path case_sensitive path_only = percent_decode (before_byte b'?' path_only) >>= λ decoded.
    if is_empty decoded
    then ok (codes "/")
    else ok (assemble case_sensitive (split_segments [] [] decoded))
