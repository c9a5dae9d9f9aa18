-- ===== src/Prelude/ByteStrings.antt =====
-- Strings as lists of bytes: comparison, prefixes, search, the ASCII classes of the C locale.
use Prim.Native.Nat.{ℕ, ◌+◌, ◌<◌}
use Prim.Native.Char.{code}
use Prim.Native.String.{String}
use mathlib.Core.Path.{◌≡◌, refl}
use mathlib.Core.Logic.{◌↔◌}
use mathlib.Core.Bool.{Bool, true, false, ◌&&◌, ◌||◌}
use mathlib.Core.List.{List, [], ◌∷◌, ◌++◌, map}
use mathlib.Core.Option.{Option, none, some}
use native.Mathlib.Omega.{arith}
use asio_owen.Prelude.Tests.{leb, ◌==◌, if◌then◌else◌}
use asio_owen.Prelude.Lists.{All}

abbrev pub Bytes : Type 0
Bytes = List ℕ

-- The bytes of an ASCII literal.
abbrev pub codes : String → Bytes
codes String.[] = []
codes (String.◌∷◌ c s) = code c ∷ codes s

unfoldable pub bytes_eq : Bytes → Bytes → Bool
bytes_eq [] [] = true
bytes_eq (x ∷ xs) (y ∷ ys) = x == y && bytes_eq xs ys
bytes_eq _ _ = false

pub bytes_eq_iff : (a b : Bytes) → (bytes_eq a b ≡ true) ↔ (a ≡ b)
unfolding bytes_eq
bytes_eq_iff (x ∷ a) (y ∷ b) = ground (arith, bytes_eq_iff a b)
bytes_eq_iff _ _ = ground arith

pub bytes_eq_refl : (a : Bytes) → bytes_eq a a ≡ true
bytes_eq_refl a = (bytes_eq_iff a a).1 refl

-- `s.find(p) == 0` and `s.starts_with(p)`: `starts_with p s`.
unfoldable pub starts_with : Bytes → Bytes → Bool
starts_with [] s = true
starts_with (x ∷ xs) [] = false
starts_with (x ∷ xs) (y ∷ ys) = x == y && starts_with xs ys

-- The text behind the prefix, if it is one.
pub starts_with-append : (p s : Bytes) → starts_with p s ≡ true → (r : Bytes) × (s ≡ p ++ r)
unfolding starts_with
starts_with-append [] s h = (s, refl)
starts_with-append (x ∷ p) [] h = cc
starts_with-append (x ∷ p) (y ∷ s) h =
    let (r, e) = starts_with-append p s (ground arith) in (r, ground (arith, e))

pub starts_with_self : (p r : Bytes) → starts_with p (p ++ r) ≡ true
unfolding starts_with
starts_with_self [] r = refl
starts_with_self (x ∷ p) r = ground (arith, starts_with_self p r)

-- `s.find(c) != npos`.
unfoldable pub has_byte : ℕ → Bytes → Bool
has_byte c [] = false
has_byte c (x ∷ xs) = x == c || has_byte c xs

pub has_byte-append : (c : ℕ) (a b : Bytes) → has_byte c (a ++ b) ≡ (has_byte c a || has_byte c b)
unfolding has_byte
has_byte-append c [] b = refl
has_byte-append c (x ∷ a) b = ground (arith, has_byte-append c a b)

-- `s.substr(0, s.find(c))`: all of `s` if there is no such byte.
unfoldable pub before_byte : ℕ → Bytes → Bytes
before_byte c [] = []
before_byte c (x ∷ xs) = let rest = before_byte c xs in if x == c then [] else x ∷ rest

pub before_byte_none : (c : ℕ) (s : Bytes) → has_byte c s ≡ false → before_byte c s ≡ s
unfolding before_byte has_byte
before_byte_none c [] h = refl
before_byte_none c (x ∷ s) h = ground (arith, before_byte_none c s)

pub has_byte-before_byte : (c : ℕ) (s : Bytes) → has_byte c (before_byte c s) ≡ false
unfolding before_byte has_byte
has_byte-before_byte c [] = refl
has_byte-before_byte c (x ∷ s) = ground (arith, has_byte-before_byte c s)

-- `s.substr(s.find(c) + 1)`, `none` if there is no such byte.
unfoldable pub after_byte : ℕ → Bytes → Option Bytes
after_byte c [] = none
after_byte c (x ∷ xs) = let rest = after_byte c xs in if x == c then some xs else rest

-- `std::tolower` and `std::isspace` in the C locale.
unfoldable pub to_lower_byte : ℕ → ℕ
to_lower_byte c = if leb b'A' c && leb c b'Z' then c + 32 else c

unfoldable pub is_space : ℕ → Bool
is_space c = c == b' ' || leb 9 c && leb c 13

unfoldable pub lower : Bytes → Bytes
unfolding to_lower_byte
lower = map to_lower_byte

pub to_lower_byte_twice : (c : ℕ) → to_lower_byte (to_lower_byte c) ≡ to_lower_byte c
unfolding to_lower_byte
to_lower_byte_twice c = ground arith

pub lower_twice : (s : Bytes) → lower (lower s) ≡ lower s
unfolding lower
lower_twice [] = refl
lower_twice (c ∷ s) = ground (arith, lower_twice s)

-- Every byte lies in the range of `unsigned char`.
abbrev pub IsBytes : Bytes → Type 0
IsBytes = All (λ c. c < 256)
