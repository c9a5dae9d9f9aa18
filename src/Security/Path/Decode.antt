-- ===== src/Security/Path/Decode.antt =====
-- Percent decoding: what it lets through, and that it undoes the encoding of a URL.
use asio_owen.Prelude.{
  ℕ, ◌+◌, ◌/◌, ◌%◌, ◌<◌, Bool, false, ◌||◌, ◌&&◌, [], ◌∷◌, ◌==◌, ltb, leb, if◌then◌else◌, ◌≡◌, refl,
  arith, Bytes, All, has_byte, Outcome, ok, err, ◌>>=◌, Bool-cases, inl, inr,
}
use asio_owen.Security.Path.{
  PathError, residual_encoding, is_separator, decode_loop, percent_decode, decode_plain,
  decode_triple, put,
}

-- No NUL and no backslash, anywhere.
abbrev pub IsSafe : Bytes → Type 0
IsSafe = All (λ c. (c == 0 || c == b'\\') ≡ false)

put-eq-ok :
    (m : Outcome PathError ℕ) (rest : Outcome PathError Bytes) {out : Bytes}
    → put m rest ≡ ok out
    → (c : ℕ) × (cs : Bytes) × (m ≡ ok c) × (rest ≡ ok cs) × (out ≡ c ∷ cs)
put-eq-ok (ok c) (ok cs) h = (c, cs, refl, refl, ground arith)
put-eq-ok (ok c) (err e) h = cc
put-eq-ok (err e) rest h = cc

decode_plain-safe :
    (c : ℕ) {d : ℕ} → decode_plain c ≡ ok d → (d ≡ c) × ((d == 0 || d == b'\\') ≡ false)
unfolding decode_plain
decode_plain-safe c h = ground arith

decode_triple-safe : (h l : ℕ) {d : ℕ} → decode_triple h l ≡ ok d → (d == 0 || d == b'\\') ≡ false
unfolding decode_triple
decode_triple-safe h l e = ground arith

put-IsSafe :
    (m : Outcome PathError ℕ) (rest : Outcome PathError Bytes) {out : Bytes}
    → ((c : ℕ) → m ≡ ok c → (c == 0 || c == b'\\') ≡ false)
    → ((cs : Bytes) → rest ≡ ok cs → IsSafe cs)
    → put m rest ≡ ok out
    → IsSafe out
put-IsSafe m rest f g h = let (c, cs, e1, e2, e3) = put-eq-ok m rest h in rw e3 (f c e1, g cs e2)

ok_nil-IsSafe : (cs : Bytes) → ◌≡◌ {A = Outcome PathError Bytes} (ok []) (ok cs) → IsSafe cs
ok_nil-IsSafe cs e = let k : cs ≡ [] = ground arith in rw k tt

decode_loop-IsSafe : (s : Bytes) {out : Bytes} → decode_loop s ≡ ok out → IsSafe out
unfolding decode_loop
decode_loop-IsSafe [] {out} h = ok_nil-IsSafe out h
decode_loop-IsSafe (c ∷ []) h = put-IsSafe _ _ (λ d e. (decode_plain-safe c e).1) ok_nil-IsSafe h
decode_loop-IsSafe (c ∷ d ∷ []) h =
    put-IsSafe _ _ (λ x e. (decode_plain-safe c e).1)
      (λ cs e. put-IsSafe _ _ (λ x e. (decode_plain-safe d e).1) ok_nil-IsSafe e) h
decode_loop-IsSafe (c ∷ x ∷ y ∷ s) {out} h = elim (Bool-cases (c == b'%')) [
  | inl e ↦
      put-IsSafe (decode_triple x y) (decode_loop s) (λ z t. decode_triple-safe x y t)
        (λ cs t. decode_loop-IsSafe s t) (rw e at h)
  | inr e ↦
      put-IsSafe (decode_plain c) (decode_loop (x ∷ y ∷ s)) (λ z t. (decode_plain-safe c t).1)
        (λ cs t. decode_loop-IsSafe (x ∷ y ∷ s) t) (rw e at h)
]

pub percent_decode-eq-ok :
    (s : Bytes) {out : Bytes}
    → percent_decode s ≡ ok out
    → (decode_loop s ≡ ok out) × (has_byte b'%' out ≡ false)
unfolding percent_decode
percent_decode-eq-ok s {out} h = go (decode_loop s) h
  where
    go :
        (m : Outcome PathError Bytes)
        → (m >>= λ r. if has_byte b'%' r then err residual_encoding else ok r) ≡ ok out
        → (m ≡ ok out) × (has_byte b'%' out ≡ false)
    go (ok r) k = ground arith
    go (err e) k = cc

-- The decoded text holds no NUL, no backslash and no percent sign.
pub percent_decode-IsSafe :
    (s : Bytes) {out : Bytes} → percent_decode s ≡ ok out → IsSafe out × (has_byte b'%' out ≡ false)
percent_decode-IsSafe s h = let (a, b) = percent_decode-eq-ok s h in (decode_loop-IsSafe s a, b)

-- The decoder copies a text without percent signs, if it is safe.
decode_loop-copies : (s : Bytes) → IsSafe s → has_byte b'%' s ≡ false → decode_loop s ≡ ok s
unfolding decode_loop decode_plain has_byte
decode_loop-copies [] h n = refl
decode_loop-copies (c ∷ []) h n = ground arith
decode_loop-copies (c ∷ d ∷ []) h n = ground arith
decode_loop-copies (c ∷ d ∷ e ∷ s) h n = ground (arith, decode_loop-copies (d ∷ e ∷ s) h.1)

pub percent_decode-copies :
    (s : Bytes) → IsSafe s → has_byte b'%' s ≡ false → percent_decode s ≡ ok s
unfolding percent_decode
percent_decode-copies s h n = rw (decode_loop-copies s h n, n)

-- An encoder, in upper case: every byte that is no letter or digit becomes three.
abbrev pub is_plain : ℕ → Bool
is_plain c =
    leb b'a' c && leb c b'z' || leb b'A' c && leb c b'Z' || leb b'0' c && leb c b'9' || c == b'/'

abbrev pub hex_digit : ℕ → ℕ
hex_digit n = if ltb n 10 then n + b'0' else n + 55

abbrev pub encode : Bytes → Bytes
encode [] = []
encode (c ∷ s) =
    if is_plain c then c ∷ encode s else b'%' ∷ hex_digit (c / 16) ∷ hex_digit (c % 16) ∷ encode s

-- What a path may hold: bytes that are decoded, so no NUL, backslash or percent sign.
abbrev pub IsPathText : Bytes → Type 0
IsPathText = All (λ c. (c < 256) × ((c == 0 || c == b'\\' || c == b'%') ≡ false))

decode_triple-hex_digit :
    (c : ℕ)
    → c < 256
    → is_separator c ≡ false
    → decode_triple (hex_digit (c / 16)) (hex_digit (c % 16)) ≡ ok c
unfolding decode_triple
decode_triple-hex_digit c h n = ground arith

decode_loop-plain :
    (c : ℕ) (t : Bytes)
    → (c == b'%') ≡ false
    → decode_loop (c ∷ t) ≡ put (decode_plain c) (decode_loop t)
unfolding decode_loop
decode_loop-plain c [] n = refl
decode_loop-plain c (d ∷ []) n = refl
decode_loop-plain c (d ∷ e ∷ t) n = rw n

decode_loop-coded :
    (h l : ℕ) (t : Bytes) → decode_loop (b'%' ∷ h ∷ l ∷ t) ≡ put (decode_triple h l) (decode_loop t)
unfolding decode_loop
decode_loop-coded h l t = refl

not_plain-separator :
    (c : ℕ)
    → (c == 0 || c == b'\\' || c == b'%') ≡ false
    → is_plain c ≡ false
    → is_separator c ≡ false
unfolding is_separator
not_plain-separator c h n = ground arith

decode_loop-encode : (s : Bytes) → IsPathText s → decode_loop (encode s) ≡ ok s
decode_loop-encode [] h = unfold decode_loop in refl
decode_loop-encode (c ∷ s) h = elim (Bool-cases (is_plain c)) [
  | inl e ↦ rw e (
      rw (decode_loop-plain c (encode s) (ground arith), decode_loop-encode s h.1)
        (unfold decode_plain in ground arith))
  | inr e ↦ rw e (
      rw (
        decode_loop-coded (hex_digit (c / 16)) (hex_digit (c % 16)) (encode s),
        decode_triple-hex_digit c h.0.0 (not_plain-separator c h.0.1 e),
        decode_loop-encode s h.1,
      ))
]

has_byte-text : (s : Bytes) → IsPathText s → has_byte b'%' s ≡ false
unfolding has_byte
has_byte-text [] h = refl
has_byte-text (c ∷ s) h = ground (arith, has_byte-text s h.1)

-- Whatever is percent-encoded decodes to itself, unless it needs a byte that the gateway refuses.
pub percent_decode-encode : (s : Bytes) → IsPathText s → percent_decode (encode s) ≡ ok s
unfolding percent_decode
percent_decode-encode s h = rw (decode_loop-encode s h, has_byte-text s h)
