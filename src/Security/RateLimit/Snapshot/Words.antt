-- ===== src/Security/RateLimit/Snapshot/Words.antt =====
-- Numbers and stretches of bytes, written and read.
use asio_owen.Prelude.{
  ℕ, suc, zero, ◌*◌, ◌/◌, ◌<◌, ◌≤◌, List, [], ◌∷◌, ◌++◌, length, take, drop, ◌≡◌, refl, ap, arith,
  ltb, false,
}
use asio_owen.Security.RateLimit.Snapshot.{word, word_value}

-- The first number that does not fit `n` bytes.
abbrev pub top : ℕ → ℕ
top zero = 1
top (suc n) = 256 * top n

pub word_value-word : (n v : ℕ) → v < top n → word_value (word n v) ≡ v
unfolding word_value word
word_value-word zero v h = omega arith
word_value-word (suc n) v h = omega (arith, word_value-word n (v / 256) (omega arith))

pub length-word : (n v : ℕ) → length (word n v) ≡ n
unfolding word
length-word zero v = refl
length-word (suc n) v = ap suc (length-word n (v / 256))

module _ {ℓ} {A : Type ℓ} where
  pub take-append : (n : ℕ) (xs ys : List A) → length xs ≡ n → take n (xs ++ ys) ≡ xs
  take-append zero [] ys h = refl
  take-append (suc n) [] ys h = absurd (omega arith)
  take-append zero (x ∷ xs) ys h = absurd (omega arith)
  take-append (suc n) (x ∷ xs) ys h = ap (λ t. x ∷ t) (take-append n xs ys (omega arith))

  pub drop-append : (n : ℕ) (xs ys : List A) → length xs ≡ n → drop n (xs ++ ys) ≡ ys
  drop-append zero [] ys h = refl
  drop-append (suc n) [] ys h = absurd (omega arith)
  drop-append zero (x ∷ xs) ys h = absurd (omega arith)
  drop-append (suc n) (x ∷ xs) ys h = drop-append n xs ys (omega arith)

  -- The test for enough bytes, where they are there.
  pub not_short : (n : ℕ) (xs : List A) → n ≤ length xs → ltb (length xs) n ≡ false
  not_short n xs h = ground arith
