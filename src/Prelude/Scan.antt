-- ===== src/Prelude/Scan.antt =====
-- Splitting and trimming of text, and the standard library's `std::stoi`.
use Prim.Native.Nat.{ℕ, ◌+◌, ◌-◌, ◌*◌, ◌^◌}
use mathlib.Core.Bool.{Bool, true, false, ◌&&◌, ◌||◌}
use mathlib.Core.List.{List, [], ◌∷◌, ◌++◌}
use mathlib.Core.Option.{Option, none, some}
use asio_owen.Prelude.Tests.{leb, ltb, ◌==◌, if◌then◌else◌}
use asio_owen.Prelude.Lists.{is_empty}
use asio_owen.Prelude.ByteStrings.{Bytes, is_space}

-- All the pieces between the separators, one more than there are separators.
unfoldable pub split_from : ℕ → Bytes → Bytes → List Bytes
split_from sep piece [] = piece ∷ []
split_from sep piece (c ∷ rest) =
    let next = piece ∷ split_from sep [] rest in
    let more = split_from sep (piece ++ c ∷ []) rest in if c == sep then next else more

abbrev pub split_on : ℕ → Bytes → List Bytes
split_on sep s = split_from sep [] s

unfoldable pub trim_left : Bytes → Bytes
unfolding is_space
trim_left [] = []
trim_left (c ∷ s) = let rest = trim_left s in if is_space c then rest else c ∷ s

unfoldable pub trim_right : Bytes → Bytes
unfolding is_space
trim_right [] = []
trim_right (c ∷ s) = let rest = trim_right s in if is_empty rest && is_space c then [] else c ∷ rest

unfoldable pub trim : Bytes → Bytes
unfolding trim_left trim_right
trim s = trim_right (trim_left s)

-- What `std::stoi` returns: the sign, the magnitude, and how many bytes were read.
pub record Parsed : Type 0 where
  pub negative : Bool
  pub magnitude : ℕ
  pub read : ℕ

abbrev pub is_digit : ℕ → Bool
is_digit c = leb b'0' c && leb c b'9'

-- The value of the leading digits, and their number.
unfoldable pub read_digits : ℕ → ℕ → Bytes → ℕ × ℕ
read_digits value n [] = (value, n)
read_digits value n (c ∷ rest) =
    let more = read_digits (value * 10 + (c - b'0')) (n + 1) rest in
    if is_digit c then more else (value, n)

-- Out of the range of a 32-bit `int`, or no digit at all, is an exception: `none`.
unfoldable pub read_int : Bool → ℕ → Bytes → Option Parsed
unfolding read_digits
read_int negative skipped s =
    let (value, n) = read_digits 0 0 s in
    if n == 0 || ltb (if negative then 2 ^ 31 else 2 ^ 31 - 1) value
    then none
    else some (record { negative = negative; magnitude = value; read = skipped + n })

unfoldable pub read_sign : ℕ → Bytes → Option Parsed
unfolding read_int
read_sign skipped [] = none
read_sign skipped (c ∷ s) =
    if c == b'-'
    then read_int true (skipped + 1) s
    else if c == b'+'
    then read_int false (skipped + 1) s
    else read_int false skipped (c ∷ s)

unfoldable pub stoi_from : ℕ → Bytes → Option Parsed
unfolding is_space read_sign
stoi_from skipped [] = none
stoi_from skipped (c ∷ s) =
    let after_space = stoi_from (skipped + 1) s in
    if is_space c then after_space else read_sign skipped (c ∷ s)

abbrev pub stoi : Bytes → Option Parsed
stoi s = stoi_from 0 s
