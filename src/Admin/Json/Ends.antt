-- ===== src/Admin/Json/Ends.antt =====
-- The reader's loops end: each of its values takes up some of the text.
use asio_owen.Prelude.{
  ℕ, suc, zero, ◌+◌, ◌*◌, ◌≤◌, ◌<◌, ◌==◌, ltb, Bool, true, false, not, [], ◌∷◌, ◌++◌, if◌then◌else◌,
  Option, some, none, Bytes, trim_left, length, ◌≡◌, refl, arith, Bool-cases, inl, inr,
}
use asio_owen.Admin.Json.{
  Parsed, parsed, refused, unfinished, and_then, or_fail, skip_ws, after_char, consume, expect,
  hex_value, hex_digits, Piece, closing, text, not_text, unicode_piece, escape_piece, string_piece,
  string_loop, string_at, parse_string,
}

-- It comes to an end, with less than so many bytes left if it is not refused.
abbrev pub Ends : {A : Type 0} → ℕ → Parsed A → Type 0
Ends n (parsed a rest) = length rest < n
Ends n (refused error) = Unit
Ends n unfinished = ⊥

pub and_then-Ends :
    {A B : Type 0} (n m : ℕ) (p : Parsed A) (next : A → Bytes → Parsed B)
    → Ends n p
    → ((a : A) (rest : Bytes) → length rest < n → Ends m (next a rest))
    → Ends m (and_then p next)
and_then-Ends n m (parsed a rest) next h k = k a rest h
and_then-Ends n m (refused error) next h k = tt
and_then-Ends n m unfinished next h k = h

pub or_fail-Ends :
    {A : Type 0} (n : ℕ) (error : Bytes) (p : Parsed A) → Ends n p → Ends n (or_fail error p)
or_fail-Ends n error (parsed a rest) h = h
or_fail-Ends n error (refused _) h = tt
or_fail-Ends n error unfinished h = h

pub Ends-mono : {A : Type 0} (n m : ℕ) (p : Parsed A) → n ≤ m → Ends n p → Ends m p
Ends-mono n m (parsed a rest) l h = omega (arith, h)
Ends-mono n m (refused error) l h = tt
Ends-mono n m unfinished l h = h

pub length-skip_ws : (s : Bytes) → length (skip_ws s) ≤ length s
unfolding skip_ws trim_left
length-skip_ws [] = omega arith
length-skip_ws (c ∷ s) = ground (arith, length-skip_ws s)

length-after_char : (c : ℕ) (s rest : Bytes) → after_char c s ≡ some rest → length rest < length s
length-after_char c [] rest e = cc
length-after_char c (d ∷ s) rest e = ground arith

pub length-consume : (c : ℕ) (s rest : Bytes) → consume c s ≡ some rest → length rest < length s
unfolding consume
length-consume c s rest e = omega (arith, length-after_char c (skip_ws s) rest e, length-skip_ws s)

-- The two ways on from a character that may be there.
pub consume-Ends :
    {A : Type 0} (c n : ℕ) (s : Bytes) (p : Parsed A) (next : Bytes → Parsed A)
    → Ends n p
    → ((rest : Bytes) → length rest < length s → Ends n (next rest))
    → Ends n (elim (consume c s) [ none ↦ p | some rest ↦ next rest ])
consume-Ends c n s p next h k = way (consume c s) (λ rest e. k rest (length-consume c s rest e))
  where
    way :
        (o : Option Bytes)
        → ((rest : Bytes) → o ≡ some rest → Ends n (next rest))
        → Ends n (elim o [ none ↦ p | some rest ↦ next rest ])
    way none l = h
    way (some rest) l = l rest refl

pub expect-Ends : (c : ℕ) (error s : Bytes) → Ends (length s) (expect c error s)
unfolding expect
expect-Ends c error s =
    consume-Ends c (length s) s (refused error) (λ rest. parsed tt rest) tt (λ rest l. l)

-- What is left when a piece of a string is read.
abbrev IsPiece : ℕ → Piece → Type 0
IsPiece n (closing rest) = length rest ≤ n
IsPiece n (text out rest) = length rest ≤ n
IsPiece n not_text = Unit

hex_digits-IsPiece : (k cp : ℕ) (s : Bytes) → IsPiece (length s) (unicode_piece (hex_digits k cp s))
unfolding hex_digits
hex_digits-IsPiece zero cp s = omega arith
hex_digits-IsPiece (suc k) cp [] = tt
hex_digits-IsPiece (suc k) cp (c ∷ s) =
    way (hex_value c) (λ d. hex_digits-IsPiece k (cp * 16 + d) s)
  where
    longer :
        (o : Option (ℕ × Bytes))
        → IsPiece (length s) (unicode_piece o)
        → IsPiece (suc (length s)) (unicode_piece o)
    longer none h = tt
    longer (some (a, rest)) h = omega (arith, h)

    way :
        (o : Option ℕ)
        → ((d : ℕ) → IsPiece (length s) (unicode_piece (hex_digits k (cp * 16 + d) s)))
        → IsPiece
            (suc (length s))
            (unicode_piece (elim o [ none ↦ none | some d ↦ hex_digits k (cp * 16 + d) s ]))
    way none h = tt
    way (some d) h = longer (hex_digits k (cp * 16 + d) s) (h d)

if_IsPiece :
    (n : ℕ) (b : Bool) (p q : Piece) → IsPiece n p → IsPiece n q → IsPiece n (if b then p else q)
if_IsPiece n true p q h k = h
if_IsPiece n false p q h k = k

unicode-IsPiece : (s : Bytes) → IsPiece (suc (length s)) (unicode_piece (hex_digits 4 0 s))
unicode-IsPiece s = more (unicode_piece (hex_digits 4 0 s)) (hex_digits-IsPiece 4 0 s)
  where
    more : (p : Piece) → IsPiece (length s) p → IsPiece (suc (length s)) p
    more (closing rest) h = omega (arith, h)
    more (text out rest) h = omega (arith, h)
    more not_text h = tt

escape_piece-IsPiece : (s : Bytes) → IsPiece (length s) (escape_piece s)
unfolding escape_piece
escape_piece-IsPiece [] = tt
escape_piece-IsPiece (e ∷ s) =
    let one : length s ≤ suc (length s) = omega arith in
    if_IsPiece _ (e == 34) _ _ one (
      if_IsPiece _ (e == 92) _ _ one (
        if_IsPiece _ (e == b'/') _ _ one (
          if_IsPiece _ (e == b'b') _ _ one (
            if_IsPiece _ (e == b'f') _ _ one (
              if_IsPiece _ (e == b'n') _ _ one (
                if_IsPiece _ (e == b'r') _ _ one (
                  if_IsPiece _ (e == b't') _ _ one
                    (if_IsPiece _ (e == b'u') _ not_text (unicode-IsPiece s) tt))))))))

string_piece-IsPiece : (c : ℕ) (s : Bytes) → IsPiece (length s) (string_piece c s)
unfolding string_piece
string_piece-IsPiece c s =
    let all : length s ≤ length s = omega arith in
    if_IsPiece _ (c == 34) _ _ all (
      if_IsPiece _ (ltb c 32) not_text _ tt
        (if_IsPiece _ (not (c == 92)) _ _ all (escape_piece-IsPiece s)))

string_loop-Ends :
    (fuel : ℕ) (s : Bytes) → length s ≤ fuel → Ends (suc (length s)) (string_loop fuel s)
unfolding string_loop
string_loop-Ends fuel [] h = tt
string_loop-Ends zero (c ∷ s) h = omega arith
string_loop-Ends (suc fuel) (c ∷ s) h =
    next (string_piece c s) (string_piece-IsPiece c s) (string_loop-Ends fuel)
  where
    next :
        (p : Piece)
        → IsPiece (length s) p
        → ((rest : Bytes) → length rest ≤ fuel → Ends (suc (length rest)) (string_loop fuel rest))
        → Ends {A = Bytes} (suc (suc (length s))) (elim p [
          | closing rest ↦ parsed [] rest
          | text out rest ↦
              and_then (string_loop fuel rest) (λ more rest. parsed (out ++ more) rest)
          | not_text ↦ refused []
        ])
    next (closing rest) k more = omega (arith, k)
    next (text out rest) k more =
        and_then-Ends (suc (length rest)) _ (string_loop fuel rest) _
          (more rest (omega (arith, k, h))) (λ more rest l. omega (arith, k, l))
    next not_text k more = tt

pub parse_string-Ends : (s : Bytes) → Ends (length s) (parse_string s)
unfolding parse_string
parse_string-Ends s = at (skip_ws s) (length-skip_ws s)
  where
    at : (t : Bytes) → length t ≤ length s → Ends (length s) (string_at t)
    at [] h = tt
    at (c ∷ t) h = elim (Bool-cases (c == 34)) [
      | inl e ↦ rw e (
          Ends-mono (suc (length t)) (length s) _ (omega arith)
            (string_loop-Ends (length t) t (omega arith)))
      | inr e ↦ rw e tt
    ]
