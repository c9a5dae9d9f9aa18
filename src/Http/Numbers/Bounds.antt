-- ===== src/Http/Numbers/Bounds.antt =====
-- The parsers against the value that the digits spell, which they return exactly when it fits.
use asio_owen.Prelude.{
  ℕ, suc, ◌+◌, ◌-◌, ◌*◌, ◌/◌, ◌≤◌, ◌<◌, ltb, leb, true, ◌||◌, [], ◌∷◌, if◌then◌else◌, Option, some,
  none, Bytes, codes, trim, before_byte, starts_with, is_empty, ◌≡◌, refl, sym, arith, Bool-cases,
  Option-cases, inl, inr,
}
use asio_owen.Http.Numbers.{
  size_max, decimal_digit, hex_digit_value, accumulate, parse_decimal_size, parse_hex_size_line,
  parse_http_status_line,
}

-- The number that the digits spell after `value`, with no bound; `none` if one is no digit.
abbrev pub spelled : ℕ → (ℕ → Option ℕ) → ℕ → Bytes → Option ℕ
spelled base digit value [] = some value
spelled base digit value (c ∷ rest) = elim (digit c) [
  | none ↦ none
  | some d ↦ spelled base digit (value * base + d) rest
]

-- That number, if it is a `size_t`.
abbrev pub as_size : Option ℕ → Option ℕ
as_size none = none
as_size (some n) = if leb n size_max then some n else none

spelled-le :
    (b : ℕ) (digit : ℕ → Option ℕ) (value : ℕ) (s : Bytes) {n : ℕ}
    → spelled (suc b) digit value s ≡ some n
    → value ≤ n
spelled-le b digit value [] h = ground arith
spelled-le b digit value (c ∷ s) h = elim (Option-cases (digit c)) [
  | inl e ↦ absurd (impossible (rw (e, spelled) at h))
  | inr (d, e) ↦
      let more = spelled-le b digit (value * suc b + d) s (rw (e, spelled) at h) in omega arith
]
  where
    impossible : {n : ℕ} → none ≡ some n → ⊥
    impossible k = cc

as_size_above : (o : Option ℕ) → ((n : ℕ) → o ≡ some n → size_max < n) → as_size o ≡ none
as_size_above none h = refl
as_size_above (some n) h = let big : size_max < n = h n refl in ground arith

module _ (b : ℕ) (digit : ℕ → Option ℕ)
    (test : (c d value : ℕ)
      → digit c ≡ some d
      → ltb ((size_max - d) / suc b) value ≡ ltb size_max (value * suc b + d)) where
  accumulate-spelled :
      (value : ℕ) (s : Bytes)
      → value ≤ size_max
      → accumulate (suc b) digit value s ≡ as_size (spelled (suc b) digit value s)
  unfolding accumulate
  accumulate-spelled value [] h = ground arith
  accumulate-spelled value (c ∷ s) h = elim (Option-cases (digit c)) [
    | inl e ↦ rw (e, accumulate, spelled)
    | inr (d, e) ↦
        rw (e, accumulate, spelled)
          (next d (test c d value e) (accumulate-spelled (value * suc b + d) s))
  ]
    where
      next :
          (d : ℕ)
          → ltb ((size_max - d) / suc b) value ≡ ltb size_max (value * suc b + d)
          → (value * suc b + d ≤ size_max
              → accumulate (suc b) digit (value * suc b + d) s
                ≡ as_size (spelled (suc b) digit (value * suc b + d) s))
          → (if ltb ((size_max - d) / suc b) value
              then none
              else accumulate (suc b) digit (value * suc b + d) s)
            ≡ as_size (spelled (suc b) digit (value * suc b + d) s)
      next d t ih = elim (Bool-cases (ltb size_max (value * suc b + d))) [
        | inl over ↦
            rw (t, over)
              (sym (
                as_size_above _
                  (λ n k. let low = spelled-le b digit (value * suc b + d) s k in ground arith)))
        | inr fits ↦ rw (t, fits) (ih (ground arith))
      ]

decimal_digit-lt : (c : ℕ) {d : ℕ} → decimal_digit c ≡ some d → d < 10
unfolding decimal_digit
decimal_digit-lt c h = ground arith

hex_digit_value-lt : (c : ℕ) {d : ℕ} → hex_digit_value c ≡ some d → d < 16
unfolding hex_digit_value
hex_digit_value-lt c h = ground arith

overflow_decimal :
    (d value : ℕ) → d < 10 → ltb ((size_max - d) / 10) value ≡ ltb size_max (value * 10 + d)
overflow_decimal d value h = ground arith

overflow_hex :
    (d value : ℕ) → d < 16 → ltb ((size_max - d) / 16) value ≡ ltb size_max (value * 16 + d)
overflow_hex d value h = ground arith

-- The decimal parser returns the number that the trimmed digits spell when it fits 64 bits, and
-- nothing when it does not, when a byte is no digit, or when there are none.
pub parse_decimal_size-spelled :
    (s : Bytes)
    → parse_decimal_size s
      ≡ (if is_empty (trim s) then none else as_size (spelled 10 decimal_digit 0 (trim s)))
unfolding parse_decimal_size
parse_decimal_size-spelled s = rw (
    accumulate-spelled 9 decimal_digit
      (λ c d value e. overflow_decimal d value (decimal_digit-lt c e)) 0 (trim s) (omega arith))

-- The same for the hexadecimal size of a chunk, up to the first semicolon of its line.
parse_hex_size_line-spelled :
    (line : Bytes)
    → let digits = trim (before_byte b';' line) in
      parse_hex_size_line line
      ≡ (if is_empty digits then none else as_size (spelled 16 hex_digit_value 0 digits))
unfolding parse_hex_size_line
parse_hex_size_line-spelled line = rw (
    accumulate-spelled 15 hex_digit_value
      (λ c d value e. overflow_hex d value (hex_digit_value-lt c e)) 0
      (trim (before_byte b';' line)) (omega arith))

-- A status code that is accepted has three bytes on the line and lies between 100 and 599, and the
-- line begins with one of the two versions.
pub parse_http_status_line_range :
    (line : Bytes) {code : ℕ} {reason : Bytes}
    → parse_http_status_line line ≡ some (code, reason)
    → (100 ≤ code)
      × (code ≤ 599)
      × ((starts_with (codes "HTTP/1.0 ") line || starts_with (codes "HTTP/1.1 ") line) ≡ true)
unfolding parse_http_status_line
parse_http_status_line_range line h = ground arith
