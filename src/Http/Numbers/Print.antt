-- ===== src/Http/Numbers/Print.antt =====
-- What `to_string` writes, the decimal parser reads.
use asio_owen.Prelude.{
  ℕ, zero, suc, ◌+◌, ◌*◌, ◌/◌, ◌%◌, ◌≤◌, ◌<◌, ltb, false, [], ◌∷◌, if◌then◌else◌, some, none, Bytes,
  is_space, trim, trim_left, trim_right, is_empty, All, ◌≡◌, refl, ap, ◌∙◌, arith, Bool-cases, inl,
  inr,
}
use asio_owen.Http.Numbers.{size_max, decimal_digit, parse_decimal_size, digits_before, to_string}
use asio_owen.Http.Numbers.Bounds.{spelled, as_size, parse_decimal_size-spelled}

abbrev pub ten_to : ℕ → ℕ
ten_to zero = 1
ten_to (suc k) = 10 * ten_to k

spelled_digit :
    (value d n : ℕ) (tail : Bytes)
    → n ≡ value * 10 + d
    → d < 10
    → spelled 10 decimal_digit value ((b'0' + d) ∷ tail) ≡ spelled 10 decimal_digit n tail
unfolding decimal_digit
spelled_digit value d n tail e h = ground arith

spelled-digits_before :
    (fuel n : ℕ) (tail : Bytes)
    → n < ten_to (suc fuel)
    → spelled 10 decimal_digit 0 (digits_before (suc fuel) n tail) ≡ spelled 10 decimal_digit n tail
unfolding digits_before
spelled-digits_before zero n tail h = ground (arith, spelled_digit 0 n n tail)
spelled-digits_before (suc fuel) n tail h = elim (Bool-cases (ltb n 10)) [
  | inl small ↦ rw (small, digits_before) (spelled_digit 0 n n tail (omega arith) (ground arith))
  | inr large ↦
      rw (large, digits_before)
        (spelled-digits_before fuel (n / 10) ((b'0' + n % 10) ∷ tail) (omega arith)
          ∙ spelled_digit (n / 10) (n % 10) n tail (omega arith) (omega arith))
]

-- What holds of the ten digits holds of every byte.
pub digits_before-All {κ} :
    (P : ℕ → Type κ)
    → ((d : ℕ) → d < 10 → P (b'0' + d))
    → (fuel n : ℕ) (tail : Bytes) → All P tail
    → All P (digits_before fuel n tail)
unfolding digits_before
digits_before-All P digit zero n tail h = h
digits_before-All P digit (suc fuel) n tail h =
    let rest =
      digits_before-All P digit fuel (n / 10) ((b'0' + n % 10) ∷ tail)
        (digit (n % 10) (omega arith), h) in
    elim (Bool-cases (ltb n 10)) [
      | inl small ↦ rw (small, digits_before) (digit n (ground arith), h)
      | inr large ↦ rw (large, digits_before) rest
    ]

pub to_string-All {κ} :
    (P : ℕ → Type κ) → ((d : ℕ) → d < 10 → P (b'0' + d)) → (n : ℕ) → All P (to_string n)
unfolding to_string
to_string-All P digit n = digits_before-All P digit 20 n [] tt

abbrev IsDigits : Bytes → Type 0
IsDigits = All (λ c. is_space c ≡ false)

digit_no_space : (d : ℕ) → d < 10 → is_space (b'0' + d) ≡ false
unfolding is_space
digit_no_space d h = ground arith

digits_before_some :
    (fuel n : ℕ) (tail : Bytes) → is_empty (digits_before (suc fuel) n tail) ≡ false
unfolding digits_before
digits_before_some zero n tail = ground arith
digits_before_some (suc fuel) n tail =
    ground (arith, digits_before_some fuel (n / 10) ((b'0' + n % 10) ∷ tail))

trim_right-IsDigits : (s : Bytes) → IsDigits s → trim_right s ≡ s
unfolding trim_right
trim_right-IsDigits [] h = refl
trim_right-IsDigits (c ∷ s) h = ground (arith, trim_right-IsDigits s h.1)

trim-IsDigits : (s : Bytes) → IsDigits s → trim s ≡ s
unfolding trim trim_left
trim-IsDigits [] h = trim_right-IsDigits [] tt
trim-IsDigits (c ∷ s) h = rw (h.0, trim_left) (trim_right-IsDigits (c ∷ s) h)

-- A 64-bit size that is written is read back as it was.
parse_decimal_size-to_string : (n : ℕ) → n ≤ size_max → parse_decimal_size (to_string n) ≡ some n
unfolding to_string
parse_decimal_size-to_string n h =
    let s = to_string n in
    let plain : trim s ≡ s =
      trim-IsDigits s (to_string-All (λ c. is_space c ≡ false) digit_no_space n) in
    parse_decimal_size-spelled s
    ∙ ap (λ t. if is_empty t then none else as_size (spelled 10 decimal_digit 0 t)) plain
    ∙ ap (λ b. if b then none else as_size (spelled 10 decimal_digit 0 s))
        (digits_before_some 19 n [])
    ∙ ap as_size (spelled-digits_before 19 n [] (omega arith))
    ∙ ground arith
