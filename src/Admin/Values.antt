-- ===== src/Admin/Values.antt =====
-- The values that `JsonReader` of `src/app/admin/config_admin_parse.cpp` skips, and the loop over the
-- members of an object.
pub mod Ends
use asio_owen.Prelude.{
  ℕ, suc, zero, ◌+◌, ◌-◌, ◌*◌, ◌/◌, ◌%◌, ◌^◌, ◌==◌, ltb, leb, Bool, true, false, ◌||◌, ◌&&◌, not,
  List, [], ◌∷◌, ◌++◌, if◌then◌else◌, Option, some, none, Bytes, codes, is_space, is_digit,
  read_digits, trim_left, starts_with, drop, length, ℤ, pos, negsuc,
}
use asio_owen.Admin.Json.{
  Parsed, parsed, refused, unfinished, and_then, or_fail, skip_ws, consume, expect, parse_string,
}

unfoldable pub skip_digits : Bytes → Bytes
skip_digits [] = []
skip_digits (c ∷ s) = let rest = skip_digits s in if is_digit c then rest else c ∷ s

-- Some digits, then `next`.
abbrev pub some_digits : Bytes → (Bytes → Parsed Unit) → Parsed Unit
some_digits s next = if length (skip_digits s) == length s then refused [] else next (skip_digits s)

abbrev pub fraction : Bytes → Parsed Unit
fraction [] = parsed tt []
fraction (c ∷ s) = if c == b'.' then some_digits s (λ rest. parsed tt rest) else parsed tt (c ∷ s)

unfoldable pub skip_number : Bytes → Parsed Unit
unfolding skip_digits
skip_number [] = refused []
skip_number (c ∷ s) = if c == b'-' then some_digits s fraction else some_digits (c ∷ s) fraction

-- What a value starts with.
pub data Start : Type 0 where
  a_string : Start
  an_object : Bytes → Start
  an_array : Bytes → Start
  a_number : Start
  a_word : ℕ → Start
  no_value : Start

unfoldable pub start_of : Bytes → Start
unfolding starts_with
start_of [] = no_value
start_of (c ∷ s) =
    if c == 34
    then a_string
    else if c == b'{'
    then an_object s
    else if c == b'['
    then an_array s
    else if is_digit c || c == b'-'
    then a_number
    else if starts_with (codes "true") (c ∷ s)
    then a_word 4
    else if starts_with (codes "false") (c ∷ s)
    then a_word 5
    else if starts_with (codes "null") (c ∷ s)
    then a_word 4
    else no_value

-- A value, or the loop over the members of an object or the elements of an array.
pub data Skip : Type 0 where
  in_value in_members in_elements : Skip

unfoldable pub skip : ℕ → Skip → Bytes → Parsed Unit
unfolding skip_ws start_of parse_string consume expect skip_number
skip zero k s = unfinished
skip (suc fuel) in_value s = elim (start_of (skip_ws s)) [
  | a_string ↦ and_then (parse_string (skip_ws s)) (λ _ rest. parsed tt rest)
  | an_object inside ↦ elim (consume b'}' inside) [
    | some rest ↦ parsed tt rest
    | none ↦ skip fuel in_members inside
  ]
  | an_array inside ↦ elim (consume b']' inside) [
    | some rest ↦ parsed tt rest
    | none ↦ skip fuel in_elements inside
  ]
  | a_number ↦ skip_number (skip_ws s)
  | a_word n ↦ parsed tt (drop n (skip_ws s))
  | no_value ↦ refused []
]
skip (suc fuel) in_members s = and_then (parse_string s) (λ _ s. and_then (expect b':' [] s) (λ _ s.
    and_then (skip fuel in_value s) (λ _ s. elim (consume b',' s) [
      | some rest ↦ skip fuel in_members rest
      | none ↦ expect b'}' [] s
    ])))
skip (suc fuel) in_elements s = and_then (skip fuel in_value s) (λ _ s. elim (consume b',' s) [
  | some rest ↦ skip fuel in_elements rest
  | none ↦ expect b']' [] s
])

unfoldable pub skip_value : Bytes → Parsed Unit
unfolding skip
skip_value s = skip (2 * length s + 1) in_value s

-- The loop over the members of an object of which `field` reads the value. The source has it once
-- for each kind of object. The object may end after a comma.
unfoldable pub object_loop :
    {R : Type 0} → ℕ → (Bytes → R → Bytes → Parsed R) → R → Bytes → Parsed R
unfolding consume parse_string expect
object_loop zero field r s = unfinished
object_loop (suc fuel) field r s = elim (consume b'}' s) [
  | some rest ↦ parsed r rest
  | none ↦ and_then (or_fail (codes "expected object key") (parse_string s)) (λ key s.
      and_then (expect b':' (codes "expected ':'") s) (λ _ s. and_then (field key r s) (λ r s.
        elim (consume b',' s) [
          | some rest ↦ object_loop fuel field r rest
          | none ↦ and_then (expect b'}' (codes "expected ',' or '}'") s) (λ _ rest. parsed r rest)
        ])))
]
