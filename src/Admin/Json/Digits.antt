-- ===== src/Admin/Json/Digits.antt =====
-- A number that `std::to_string` writes, `JsonReader::parse_int64` reads.
use asio_owen.Prelude.{
  ℕ, suc, zero, ◌+◌, ◌-◌, ◌*◌, ◌/◌, ◌%◌, ◌^◌, ◌<◌, ◌==◌, ltb, false, ◌||◌, [], ◌∷◌, ◌++◌,
  if◌then◌else◌, Bytes, drop, is_space, is_digit, read_digits, trim_left, pos, ◌≡◌, refl, ap, sym,
  ◌∙◌, arith, Bool-cases, inl, inr, lt→ltb,
}
use asio_owen.Http.Numbers.{digits_before, to_string}
use asio_owen.Http.Numbers.Print.{ten_to}
use asio_owen.Admin.Json.{parsed, refused, skip_ws, read_number, number_at, parse_int64}

drop-suc : (n : ℕ) (s : Bytes) → drop (suc n) s ≡ drop 1 (drop n s)
drop-suc zero s = refl
drop-suc (suc n) [] = refl
drop-suc (suc n) (c ∷ s) = drop-suc n s

read_digits_digit :
    (value k d n m : ℕ) (tail : Bytes)
    → n ≡ value * 10 + d
    → m ≡ k + 1
    → d < 10
    → read_digits value k ((b'0' + d) ∷ tail) ≡ read_digits n m tail
unfolding read_digits
read_digits_digit value k d n m tail e f small = ground arith

-- The digits are read up to what follows them, and there is at least one.
abbrev AreRead : ℕ → Bytes → Bytes → Type 0
AreRead n s tail =
    (m : ℕ) × (read_digits 0 0 s ≡ read_digits n (suc m) tail) × (drop (suc m) s ≡ tail)

digits_before-AreRead :
    (fuel n : ℕ) (tail : Bytes)
    → n < ten_to (suc fuel)
    → AreRead n (digits_before (suc fuel) n tail) tail
unfolding digits_before
digits_before-AreRead zero n tail h =
    rw (digits_before, lt→ltb n 10 (omega arith))
      (0, read_digits_digit 0 0 n n 1 tail (omega arith) (omega arith) (omega arith), refl)
digits_before-AreRead (suc fuel) n tail h = elim (Bool-cases (ltb n 10)) [
  | inl small ↦
      rw (AreRead, small, digits_before)
        (0, read_digits_digit 0 0 n n 1 tail (omega arith) (omega arith) (ground arith), refl)
  | inr large ↦
      let (m, e, d) = digits_before-AreRead fuel (n / 10) ((b'0' + n % 10) ∷ tail) (omega arith) in
      rw (AreRead, large, digits_before)
        (
          suc m,
          e
              ∙ read_digits_digit (n / 10) (suc m) (n % 10) n (suc (suc m)) tail (omega arith)
                  (omega arith) (omega arith),
          drop-suc (suc m) _ ∙ ap (drop 1) d,
        )
]

digits_before-append :
    (fuel n : ℕ) (a b : Bytes) → digits_before fuel n a ++ b ≡ digits_before fuel n (a ++ b)
unfolding digits_before
digits_before-append zero n a b = refl
digits_before-append (suc fuel) n a b =
    ground (arith, digits_before-append fuel (n / 10) ((b'0' + n % 10) ∷ a) b)

digits_before_first :
    (fuel n : ℕ) (tail : Bytes)
    → (d : ℕ) × (t : Bytes) × (digits_before (suc fuel) n tail ≡ (b'0' + d) ∷ t) × (d < 10)
unfolding digits_before
digits_before_first zero n tail = elim (Bool-cases (ltb n 10)) [
  | inl small ↦ rw (small, digits_before) (n, tail, refl, ground arith)
  | inr large ↦ rw (large, digits_before) (n % 10, tail, refl, omega arith)
]
digits_before_first (suc fuel) n tail =
    let rest = digits_before_first fuel (n / 10) ((b'0' + n % 10) ∷ tail) in
    elim (Bool-cases (ltb n 10)) [
      | inl small ↦ rw (small, digits_before) (n, tail, refl, ground arith)
      | inr large ↦ rw (large, digits_before) rest
    ]

number_at-digits :
    (d : ℕ) (t : Bytes)
    → d < 10
    → number_at (skip_ws ((b'0' + d) ∷ t)) ≡ read_number false ((b'0' + d) ∷ t)
unfolding skip_ws trim_left is_space
number_at-digits d t h = ground arith

read_number_lem :
    (n m : ℕ) (s : Bytes) (c : ℕ) (rest : Bytes)
    → n < 2 ^ 63
    → is_digit c ≡ false
    → read_digits 0 0 s ≡ read_digits n (suc m) (c ∷ rest)
    → drop (suc m) s ≡ c ∷ rest
    → read_number false s ≡ parsed (pos n) (c ∷ rest)
unfolding read_number read_digits
read_number_lem n m s c rest h k e d =
    let ends : read_digits n (suc m) (c ∷ rest) ≡ (n, suc m) = rw (read_digits, k) refl in
    ap (λ p. if p.1 == 0 || ltb (2 ^ 63 - 1) p.0 then refused [] else parsed (pos p.0) (drop p.1 s))
      (e ∙ ends)
    ∙ ap (λ b. if b then refused [] else parsed (pos n) (drop (suc m) s)) in_range
    ∙ ap (parsed (pos n)) d
  where
    in_range : (suc m == 0 || ltb (2 ^ 63 - 1) n) ≡ false
    in_range = ground arith

pub parse_int64-to_string :
    (n c : ℕ) (rest : Bytes)
    → n < 2 ^ 63
    → is_digit c ≡ false
    → parse_int64 (to_string n ++ c ∷ rest) ≡ parsed (pos n) (c ∷ rest)
unfolding parse_int64 to_string
parse_int64-to_string n c rest h k =
    let written = digits_before-append 20 n [] (c ∷ rest) in
    let (d, t, e, small) = digits_before_first 19 n (c ∷ rest) in
    let (m, f, g) = digits_before-AreRead 19 n (c ∷ rest) (omega (arith, h)) in
    ap (λ s. number_at (skip_ws s)) (written ∙ e)
    ∙ number_at-digits d t small
    ∙ ap (read_number false) (sym e)
    ∙ read_number_lem n m (digits_before 20 n (c ∷ rest)) c rest h k f g
