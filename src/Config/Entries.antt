-- ===== src/Config/Entries.antt =====
-- The two stores of the configuration agree, and the numbers that it gives are 32-bit integers.
use asio_owen.Prelude.{
  ℕ, ◌+◌, ◌<◌, ◌^◌, ◌==◌, Bool, true, false, List, [], ◌∷◌, ◌++◌, if◌then◌else◌, Option, some, none,
  Bytes, bytes_eq, ℤ, pos, negsuc, read_digits, ok, ok-injective, length, ◌≡◌, refl, sym, ap, ◌∙◌,
  arith, Bool-cases, inl, inr, subst, some-injective, ◌-◌, is_empty, keep,
}
use asio_owen.Config.{
  Entry, Config, qualified_key, find, Line, skipped, malformed, header, setting, read_line,
  add_entry, after_line, load_lines, load_file, File, sort_files, load_then, load_files, load,
  negate, in_range, parse_magnitude, from_chars_int, int_of, int_or_error, get_int, map_option,
}

-- The value of the last entry with this qualified key.
abbrev pub later {ℓ} : {A : Type ℓ} → Option A → Option A → Option A
later none first = first
later (some a) first = some a

abbrev pub own_value : Bytes → Entry → Option Bytes
own_value k e = if bytes_eq (qualified_key e.section e.key) k then some e.value else none

abbrev pub last_value : Bytes → List Entry → Option Bytes
last_value k [] = none
last_value k (e ∷ es) = later (last_value k es) (own_value k e)

last_value-append :
    (k : Bytes) (es : List Entry) (e : Entry)
    → last_value k (es ++ e ∷ []) ≡ later (own_value k e) (last_value k es)
last_value-append k [] e = go (own_value k e)
  where
    go : (o : Option Bytes) → later none o ≡ later o none
    go none = refl
    go (some v) = refl
last_value-append k (d ∷ es) e =
    ap (λ o. later o (own_value k d)) (last_value-append k es e)
    ∙ go (own_value k e) (last_value k es) (own_value k d)
  where
    go : (a b c : Option Bytes) → later (later a b) c ≡ later a (later b c)
    go none b c = refl
    go (some v) b c = refl

abbrev pub Agrees : Config → Type 0
Agrees c = (k : Bytes) → find k c.values ≡ last_value k c.raw_entries

add_entry-Agrees : (e : Entry) (c : Config) → Agrees c → Agrees (add_entry e c)
add_entry-Agrees e c h k =
    go (bytes_eq (qualified_key e.section e.key) k) (find k c.values) (last_value k c.raw_entries)
      (h k)
    ∙ sym (last_value-append k c.raw_entries e)
  where
    go :
        (b : Bool) (x y : Option Bytes)
        → x ≡ y
        → (if b then some e.value else x) ≡ later (if b then some e.value else none) y
    go true x y q = refl
    go false x y q = q

after_line-Agrees :
    (more : Bytes → Config → Config × Bool) (section : Bytes) (c : Config) (l : Line)
    → ((name : Bytes) (d : Config) → Agrees d → Agrees (more name d).0)
    → Agrees c
    → Agrees (after_line more section c l).0
after_line-Agrees more section c skipped k h = k section c h
after_line-Agrees more section c malformed k h = h
after_line-Agrees more section c (header name) k h = k name c h
after_line-Agrees more section c (setting key value) k h =
    let e : Entry = record { section = section; key = key; value = value } in
    k section (add_entry e c) (add_entry-Agrees e c h)

load_lines-Agrees :
    (section : Bytes) (lines : List Bytes) (c : Config)
    → Agrees c
    → Agrees (load_lines section lines c).0
unfolding load_lines
load_lines-Agrees section [] c h = h
load_lines-Agrees section (line ∷ lines) c h =
    after_line-Agrees (λ s d. load_lines s lines d) section c (read_line line)
      (λ name d. load_lines-Agrees name lines d) h

load_file-Agrees : (o : Option (List Bytes)) (c : Config) → Agrees c → Agrees (load_file o c).0
unfolding load_file
load_file-Agrees none c h = h
load_file-Agrees (some lines) c h = load_lines-Agrees [] lines c h

load_then-Agrees :
    (more : Config → Config × Bool) (r : Config × Bool)
    → ((d : Config) → Agrees d → Agrees (more d).0)
    → Agrees r.0
    → Agrees (load_then more r).0
load_then-Agrees more (c, true) k h = k c h
load_then-Agrees more (c, false) k h = h

load_files-Agrees : (fs : List File) (c : Config) → Agrees c → Agrees (load_files fs c).0
unfolding load_files
load_files-Agrees [] c h = h
load_files-Agrees (f ∷ fs) c h =
    load_then-Agrees (load_files fs) (load_file f.lines c) (load_files-Agrees fs)
      (load_file-Agrees f.lines c h)

-- Loading, whether it succeeds or stops at a bad file, keeps the two stores in agreement: the value
-- under a qualified key is that of the last entry with this key.
pub load-Agrees : (entries : Option (List File)) (c : Config) → Agrees c → Agrees (load entries c).0
unfolding load
load-Agrees none c h = h
load-Agrees (some entries) c h = go (is_empty (keep (λ f. f.is_ini) entries))
  where
    files : List File
    files = sort_files (keep (λ f. f.is_ini) entries)

    go : (b : Bool) → Agrees (if b then (c, false) else load_files files c).0
    go true = h
    go false = load_files-Agrees files c h

-- A value that fits a 32-bit `int`.
abbrev pub InInt32 : ℤ → Type 0
InInt32 (pos n) = n < 2 ^ 31
InInt32 (negsuc n) = n < 2 ^ 31

negate-InInt32 : (n : ℕ) → n < 2 ^ 31 + 1 → InInt32 (negate n)
negate-InInt32 ℕ.zero h = omega arith
negate-InInt32 (ℕ.suc n) h = omega arith

in_range_top : (top size : ℕ) (r : ℕ × ℕ) (n : ℕ) → in_range top size r ≡ some n → n < top + 1
in_range_top top size (value, k) n h = ground arith

from_chars_int-InInt32 : (value : Bytes) (n : ℤ) → from_chars_int value ≡ some n → InInt32 n
unfolding from_chars_int
from_chars_int-InInt32 [] n h = cc
from_chars_int-InInt32 (c ∷ rest) n h = elim (Bool-cases (c == b'-')) [
  | inl e ↦ negative (parse_magnitude (2 ^ 31) rest) refl (rw e at h)
  | inr e ↦ positive (parse_magnitude (2 ^ 31 - 1) (c ∷ rest)) refl (rw e at h)
]
  where
    negative :
        (o : Option ℕ)
        → parse_magnitude (2 ^ 31) rest ≡ o
        → map_option negate o ≡ some n
        → InInt32 n
    negative none e k = cc
    negative (some m) e k =
        subst InInt32 (some-injective (negate m) n k)
          (negate-InInt32 m (in_range_top (2 ^ 31) (length rest) (read_digits 0 0 rest) m e))

    positive :
        (o : Option ℕ)
        → parse_magnitude (2 ^ 31 - 1) (c ∷ rest) ≡ o
        → map_option pos o ≡ some n
        → InInt32 n
    positive none e k = cc
    positive (some m) e k =
        subst InInt32 (some-injective (pos m) n k)
          (in_range_top (2 ^ 31 - 1) (length (c ∷ rest)) (read_digits 0 0 (c ∷ rest)) m e)

-- A number that is read from the configuration fits a 32-bit `int`, if the default does.
get_int-InInt32 :
    (c : Config) (section key : Bytes) (def n : ℤ)
    → InInt32 def
    → get_int c section key def ≡ ok n
    → InInt32 n
unfolding get_int
get_int-InInt32 c section key def n d h = go (find (qualified_key section key) c.values) h
  where
    parsed :
        (value : Bytes) (o : Option ℤ)
        → from_chars_int value ≡ o
        → int_or_error value o ≡ ok n
        → InInt32 n
    parsed value none e k = cc
    parsed value (some m) e k = from_chars_int-InInt32 value n (rw e (ap some (ok-injective m n k)))

    go : (o : Option Bytes) → int_of def o ≡ ok n → InInt32 n
    go none k = subst InInt32 (ok-injective def n k) d
    go (some value) k = parsed value (from_chars_int value) refl k
