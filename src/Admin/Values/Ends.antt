-- ===== src/Admin/Values/Ends.antt =====
-- `skip_value` and the loop over the members of an object end.
use asio_owen.Prelude.{
  ℕ, suc, zero, ◌+◌, ◌*◌, ◌≤◌, ◌<◌, ◌==◌, Bool, true, false, ◌||◌, [], ◌∷◌, if◌then◌else◌, some,
  none, Bytes, codes, is_digit, read_digits, starts_with, drop, length, ◌≡◌, refl, arith,
  Bool-cases, inl, inr,
}
use asio_owen.Admin.Json.{
  Parsed, parsed, refused, and_then, or_fail, skip_ws, consume, expect, parse_string, read_number,
  number_at, parse_int64,
}
use asio_owen.Admin.Values.{
  skip_digits, some_digits, fraction, skip_number, Start, a_string, an_object, an_array, a_number,
  a_word, no_value, start_of, Skip, in_value, in_members, in_elements, skip, skip_value,
  object_loop,
}
use asio_owen.Admin.Json.Ends.{
  Ends, and_then-Ends, or_fail-Ends, Ends-mono, length-skip_ws, consume-Ends, expect-Ends,
  parse_string-Ends,
}

length-skip_digits : (s : Bytes) → length (skip_digits s) ≤ length s
unfolding skip_digits
length-skip_digits [] = omega arith
length-skip_digits (c ∷ s) = ground (arith, length-skip_digits s)

some_digits-Ends :
    (s : Bytes) (next : Bytes → Parsed Unit)
    → ((rest : Bytes) → Ends (suc (length rest)) (next rest))
    → Ends (length s) (some_digits s next)
some_digits-Ends s next h = elim (Bool-cases (length (skip_digits s) == length s)) [
  | inl e ↦ rw (Ends, e) tt
  | inr e ↦
      rw (Ends, e)
        (Ends-mono (suc (length (skip_digits s))) (length s) _
          (ground (arith, length-skip_digits s)) (h (skip_digits s)))
]

pub if_Ends :
    {A : Type 0} (n : ℕ) (b : Bool) (p q : Parsed A)
    → Ends n p
    → Ends n q
    → Ends n (if b then p else q)
if_Ends n true p q h k = h
if_Ends n false p q h k = k

fraction-Ends : (s : Bytes) → Ends (suc (length s)) (fraction s)
fraction-Ends [] = omega arith
fraction-Ends (c ∷ s) =
    if_Ends (suc (suc (length s))) (c == b'.') (some_digits s (λ rest. parsed tt rest))
      (parsed tt (c ∷ s))
      (Ends-mono (length s) _ _ (omega arith)
        (some_digits-Ends s (λ rest. parsed tt rest) (λ rest. omega arith)))
      (omega arith)

skip_number-Ends : (s : Bytes) → Ends (length s) (skip_number s)
unfolding skip_number
skip_number-Ends [] = tt
skip_number-Ends (c ∷ s) =
    if_Ends (suc (length s)) (c == b'-') (some_digits s fraction) (some_digits (c ∷ s) fraction)
      (Ends-mono (length s) _ _ (omega arith) (some_digits-Ends s fraction fraction-Ends))
      (some_digits-Ends (c ∷ s) fraction fraction-Ends)

length-drop : (n : ℕ) (s : Bytes) → length (drop n s) ≤ length s
length-drop zero s = omega arith
length-drop (suc n) [] = omega arith
length-drop (suc n) (c ∷ s) = omega (arith, length-drop n s)

-- What is left when the start of a value is read.
abbrev IsStart : ℕ → Bytes → Start → Type 0
IsStart n t (an_object inside) = length inside < n
IsStart n t (an_array inside) = length inside < n
IsStart n t (a_word k) = length (drop k t) < n
IsStart n t _ = Unit

if_IsStart :
    (n : ℕ) (t : Bytes) (b : Bool) (p q : Start)
    → IsStart n t p
    → IsStart n t q
    → IsStart n t (if b then p else q)
if_IsStart n t true p q h k = h
if_IsStart n t false p q h k = k

start_of-IsStart : (t : Bytes) → IsStart (length t) t (start_of t)
unfolding start_of
start_of-IsStart [] = tt
start_of-IsStart (c ∷ s) =
    let inside : length s < suc (length s) = omega arith in
    let word : (k : ℕ) → length (drop k s) < suc (length s) = λ k. omega (arith, length-drop k s) in
    let t = c ∷ s in
    if_IsStart _ t (c == 34) _ _ tt (
      if_IsStart _ t (c == b'{') _ _ inside (
        if_IsStart _ t (c == b'[') _ _ inside (
          if_IsStart _ t (is_digit c || c == b'-') _ _ tt (
            if_IsStart _ t (starts_with (codes "true") t) _ _ (word 3) (
              if_IsStart _ t (starts_with (codes "false") t) _ _ (word 4)
                (if_IsStart _ t (starts_with (codes "null") t) _ _ (word 3) tt))))))

-- The fuel that is enough.
abbrev need : Skip → ℕ → ℕ
need in_value n = 2 * n + 1
need in_members n = 2 * n + 2
need in_elements n = 2 * n + 2

skip-Ends :
    (fuel : ℕ) (k : Skip) (s : Bytes) → need k (length s) ≤ fuel → Ends (length s) (skip fuel k s)
unfolding skip
skip-Ends zero in_value s h = absurd (omega arith)
skip-Ends zero in_members s h = absurd (omega arith)
skip-Ends zero in_elements s h = absurd (omega arith)
skip-Ends (suc fuel) in_value s h =
    way (skip_ws s) (start_of (skip_ws s)) (length-skip_ws s) (start_of-IsStart (skip_ws s))
      (skip-Ends fuel)
  where
    way :
        (t : Bytes) (start : Start)
        → length t ≤ length s
        → IsStart (length t) t start
        → ((k : Skip) (r : Bytes) → need k (length r) ≤ fuel → Ends (length r) (skip fuel k r))
        → Ends {A = Unit} (length s) (elim start [
          | a_string ↦ and_then (parse_string t) (λ _ rest. parsed tt rest)
          | an_object inside ↦ elim (consume b'}' inside) [
            | some rest ↦ parsed tt rest
            | none ↦ skip fuel in_members inside
          ]
          | an_array inside ↦ elim (consume b']' inside) [
            | some rest ↦ parsed tt rest
            | none ↦ skip fuel in_elements inside
          ]
          | a_number ↦ skip_number t
          | a_word n ↦ parsed tt (drop n t)
          | no_value ↦ refused []
        ])
    way t a_string l i more =
        and_then-Ends (length t) (length s) (parse_string t) _ (parse_string-Ends t)
          (λ _ rest j. omega arith)
    way t (an_object inside) l i more =
        consume-Ends b'}' (length s) inside (skip fuel in_members inside) (λ rest. parsed tt rest)
          (Ends-mono (length inside) _ _ (omega arith) (more in_members inside (omega arith)))
          (λ rest j. omega arith)
    way t (an_array inside) l i more =
        consume-Ends b']' (length s) inside (skip fuel in_elements inside) (λ rest. parsed tt rest)
          (Ends-mono (length inside) _ _ (omega arith) (more in_elements inside (omega arith)))
          (λ rest j. omega arith)
    way t a_number l i more = Ends-mono (length t) (length s) _ l (skip_number-Ends t)
    way t (a_word n) l i more = omega arith
    way t no_value l i more = tt
skip-Ends (suc fuel) in_members s h =
    and_then-Ends (length s) _ (parse_string s) _ (parse_string-Ends s) (λ _ t i.
      and_then-Ends (length t) _ (expect b':' [] t) _ (expect-Ends b':' [] t) (λ _ u j.
        and_then-Ends (length u) _ (skip fuel in_value u) _
          (skip-Ends fuel in_value u (omega arith))
          (λ _ v l.
            consume-Ends b',' (length s) v (expect b'}' [] v) (λ rest. skip fuel in_members rest)
              (Ends-mono (length v) _ _ (omega arith) (expect-Ends b'}' [] v))
              (λ rest m.
                Ends-mono (length rest) _ _ (omega arith)
                  (skip-Ends fuel in_members rest (omega arith))))))
skip-Ends (suc fuel) in_elements s h =
    and_then-Ends (length s) _ (skip fuel in_value s) _ (skip-Ends fuel in_value s (omega arith))
      (λ _ v l.
        consume-Ends b',' (length s) v (expect b']' [] v) (λ rest. skip fuel in_elements rest)
          (Ends-mono (length v) _ _ (omega arith) (expect-Ends b']' [] v))
          (λ rest m.
            Ends-mono (length rest) _ _ (omega arith)
              (skip-Ends fuel in_elements rest (omega arith))))

pub skip_value-Ends : (s : Bytes) → Ends (length s) (skip_value s)
unfolding skip_value
skip_value-Ends s = skip-Ends (2 * length s + 1) in_value s (omega arith)

unless_Ends :
    {A : Type 0} (n : ℕ) (b : Bool) (error : Bytes) (p : Parsed A)
    → (b ≡ false → Ends n p)
    → Ends n (if b then refused error else p)
unless_Ends n true error p h = tt
unless_Ends n false error p h = h refl

length-drop_some :
    (n c : ℕ) (s : Bytes) → ((n == 0) ≡ false) → length (drop n (c ∷ s)) < suc (length s)
length-drop_some zero c s h = cc
length-drop_some (suc n) c s h = omega (arith, length-drop n s)

read_number-Ends : (negative : Bool) (s : Bytes) → Ends (length s) (read_number negative s)
unfolding read_number read_digits
read_number-Ends true [] = tt
read_number-Ends false [] = tt
read_number-Ends negative (c ∷ s) =
    let n = (read_digits 0 0 (c ∷ s)).1 in
    unless_Ends (suc (length s)) (n == 0 || _) [] (parsed _ (drop n (c ∷ s)))
      (λ e. length-drop_some n c s (ground (arith, e)))

pub parse_int64-Ends : (s : Bytes) → Ends (length s) (parse_int64 s)
unfolding parse_int64
parse_int64-Ends s = at (skip_ws s) (length-skip_ws s)
  where
    at : (t : Bytes) → length t ≤ length s → Ends (length s) (number_at t)
    at [] h = tt
    at (c ∷ t) h =
        if_Ends (length s) (c == b'-') (read_number true t) (read_number false (c ∷ t))
          (Ends-mono (length t) _ _ (omega arith) (read_number-Ends true t))
          (Ends-mono (suc (length t)) _ _ h (read_number-Ends false (c ∷ t)))

pub object_loop-Ends :
    {R : Type 0} (fuel : ℕ) (field : Bytes → R → Bytes → Parsed R)
    → ((key : Bytes) (r : R) (s : Bytes) → Ends (length s) (field key r s))
    → (r : R) (s : Bytes) → length s < fuel
    → Ends (length s) (object_loop fuel field r s)
unfolding object_loop
object_loop-Ends zero field f r s h = omega arith
object_loop-Ends (suc fuel) field f r s h =
    consume-Ends b'}' (length s) s _ (λ rest. parsed r rest)
      (and_then-Ends (length s) _ (or_fail _ (parse_string s)) _
        (or_fail-Ends (length s) _ (parse_string s) (parse_string-Ends s))
        (λ key t i. and_then-Ends (length t) _ (expect b':' _ t) _ (expect-Ends b':' _ t) (λ _ u j.
          and_then-Ends (length u) _ (field key r u) _ (f key r u) (λ r v l.
            consume-Ends b',' (length s) v _ (λ rest. object_loop fuel field r rest)
              (and_then-Ends (length v) _ (expect b'}' _ v) _ (expect-Ends b'}' _ v)
                (λ _ rest m. omega arith))
              (λ rest m.
                Ends-mono (length rest) _ _ (omega arith)
                  (object_loop-Ends fuel field f r rest (omega arith)))))))
      (λ rest l. l)
