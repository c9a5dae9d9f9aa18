-- ===== src/Config.antt =====
-- `src/common/config.hpp`: the ini files and the typed values. Opening, listing and reading the
-- files is left to the caller: a file is its list of lines, as `std::getline` gives them, and the
-- directory is the list of its entries.
pub mod Entries
pub mod Print
use asio_owen.Prelude.{
  ℕ, ◌-◌, ◌^◌, Bool, true, false, not, ◌&&◌, ◌||◌, ltb, List, [], ◌∷◌, ◌++◌, ◌==◌, if◌then◌else◌,
  Option, some, none, Bytes, codes, bytes_eq, length, take, drop, back?, is_empty, trim, has_byte,
  before_byte, after_byte, lower, keep, map, read_digits, ℤ, pos, negsuc, Outcome, ok, err,
}

pub record Entry : Type 0 where
  pub section : Bytes
  pub key : Bytes
  pub value : Bytes

pub record Config : Type 0 where
  -- Keyed by `section.key`; the newest binding stands first.
  pub values : List (Bytes × Bytes)
  pub raw_entries : List Entry

abbrev pub empty_config : Config
empty_config = record { values = []; raw_entries = [] }

abbrev pub qualified_key : Bytes → Bytes → Bytes
qualified_key section key = section ++ b'.' ∷ key

abbrev pub find : Bytes → List (Bytes × Bytes) → Option Bytes
find k [] = none
find k ((key, value) ∷ rest) =
    let older = find k rest in if bytes_eq key k then some value else older

-- What one line does.
pub data Line : Type 0 where
  skipped : Line
  malformed : Line
  header : Bytes → Line
  setting : Bytes → Bytes → Line

abbrev pub header_line : Bytes → Option ℕ → Line
header_line line none = malformed
header_line line (some last) =
    if last == b']' then header (take (length line - 2) (drop 1 line)) else malformed

abbrev pub setting_line : Bytes → Option Bytes → Line
setting_line line none = malformed
setting_line line (some value) = setting (trim (before_byte b'=' line)) (trim value)

-- The line is trimmed.
unfoldable pub read_trimmed : Bytes → Line
unfolding before_byte after_byte trim
read_trimmed [] = skipped
read_trimmed (c ∷ rest) =
    if c == b'#' || c == b';'
    then skipped
    else if c == b'['
    then header_line (c ∷ rest) (back? (c ∷ rest))
    else setting_line (c ∷ rest) (after_byte b'=' (c ∷ rest))

abbrev pub read_line : Bytes → Line
read_line line = read_trimmed (trim line)

abbrev pub add_entry : Entry → Config → Config
add_entry e c = record {
  values = (qualified_key e.section e.key, e.value) ∷ c.values;
  raw_entries = c.raw_entries ++ e ∷ [];
}

-- What the loop does after a line, in the section that is open: `malformed` ends it.
abbrev pub after_line : (Bytes → Config → Config × Bool) → Bytes → Config → Line → Config × Bool
after_line more section c skipped = more section c
after_line more section c malformed = (c, false)
after_line more section c (header name) = more name c
after_line more section c (setting key value) =
    more section (add_entry (record { section = section; key = key; value = value }) c)

-- The loop of `load_file`. What was read before a malformed line stays.
unfoldable pub load_lines : Bytes → List Bytes → Config → Config × Bool
unfolding read_trimmed trim
load_lines section [] c = (c, true)
load_lines section (line ∷ lines) c =
    after_line (λ s d. load_lines s lines d) section c (read_line line)

-- `none` is a file that does not open.
unfoldable pub load_file : Option (List Bytes) → Config → Config × Bool
unfolding load_lines
load_file none c = (c, false)
load_file (some lines) c = load_lines [] lines c

pub record File : Type 0 where
  pub filename : Bytes
  -- A regular file with the extension `.ini`.
  pub is_ini : Bool
  pub lines : Option (List Bytes)

-- `operator<` of strings, as bytes.
abbrev pub bytes_lt : Bytes → Bytes → Bool
bytes_lt a [] = false
bytes_lt [] (y ∷ b) = true
bytes_lt (x ∷ a) (y ∷ b) = ltb x y || x == y && bytes_lt a b

-- `std::sort` by name; the names of a directory differ.
abbrev pub insert_file : File → List File → List File
insert_file f [] = f ∷ []
insert_file f (g ∷ gs) =
    let rest = g ∷ insert_file f gs in if bytes_lt g.filename f.filename then rest else f ∷ g ∷ gs

abbrev pub sort_files : List File → List File
sort_files [] = []
sort_files (f ∷ fs) = insert_file f (sort_files fs)

-- Stops at the first file that fails.
abbrev pub load_then : (Config → Config × Bool) → Config × Bool → Config × Bool
load_then more (c, true) = more c
load_then more (c, false) = (c, false)

unfoldable pub load_files : List File → Config → Config × Bool
unfolding load_file
load_files [] c = (c, true)
load_files (f ∷ fs) c = load_then (load_files fs) (load_file f.lines c)

-- `none` is a directory that is not there or cannot be listed.
unfoldable pub load : Option (List File) → Config → Config × Bool
unfolding load_files
load none c = (c, false)
load (some entries) c =
    let files = keep (λ f. f.is_ini) entries in
    if is_empty files then (c, false) else load_files (sort_files files) c

abbrev pub or_default {ℓ} : {A : Type ℓ} → A → Option A → A
or_default def none = def
or_default def (some a) = a

unfoldable pub get : Config → Bytes → Bytes → Bytes → Bytes
get c section key def = or_default def (find (qualified_key section key) c.values)

pub data ConfigError : Type 0 where
  -- `std::invalid_argument`, with the value.
  invalid_int invalid_bool : Bytes → ConfigError

-- `-value`
abbrev pub negate : ℕ → ℤ
negate ℕ.zero = pos 0
negate (ℕ.suc n) = negsuc n

-- `std::from_chars` on all of the text, for a 32-bit `int`: no digit, a byte behind the digits, or
-- a value out of range is an error.
abbrev pub in_range : ℕ → ℕ → ℕ × ℕ → Option ℕ
in_range top size (value, n) =
    if n == 0 || not (n == size) || ltb top value then none else some value

abbrev pub parse_magnitude : ℕ → Bytes → Option ℕ
parse_magnitude top digits = in_range top (length digits) (read_digits 0 0 digits)

abbrev pub map_option {ℓ κ} : {A : Type ℓ} {B : Type κ} → (A → B) → Option A → Option B
map_option f none = none
map_option f (some a) = some (f a)

unfoldable pub from_chars_int : Bytes → Option ℤ
unfolding read_digits
from_chars_int [] = none
from_chars_int (c ∷ rest) =
    if c == b'-'
    then map_option negate (parse_magnitude (2 ^ 31) rest)
    else map_option pos (parse_magnitude (2 ^ 31 - 1) (c ∷ rest))

abbrev pub int_or_error : Bytes → Option ℤ → Outcome ConfigError ℤ
int_or_error value none = err (invalid_int value)
int_or_error value (some n) = ok n

abbrev pub int_of : ℤ → Option Bytes → Outcome ConfigError ℤ
int_of def none = ok def
int_of def (some value) = int_or_error value (from_chars_int value)

unfoldable pub get_int : Config → Bytes → Bytes → ℤ → Outcome ConfigError ℤ
unfolding from_chars_int
get_int c section key def = int_of def (find (qualified_key section key) c.values)

abbrev pub bool_of : Bool → Option Bytes → Outcome ConfigError Bool
bool_of def none = ok def
bool_of def (some text) =
    let value = lower text in
    if bytes_eq value (codes "true")
      || bytes_eq value (codes "1")
      || bytes_eq value (codes "yes")
      || bytes_eq value (codes "on")
    then ok true
    else if bytes_eq value (codes "false")
        || bytes_eq value (codes "0")
        || bytes_eq value (codes "no")
        || bytes_eq value (codes "off")
    then ok false
    else err (invalid_bool text)

unfoldable pub get_bool : Config → Bytes → Bytes → Bool → Outcome ConfigError Bool
unfolding lower
get_bool c section key def = bool_of def (find (qualified_key section key) c.values)

unfoldable pub get_section : Config → Bytes → List (Bytes × Bytes)
get_section c section =
    map (λ e. (e.key, e.value)) (keep (λ e. bytes_eq e.section section) c.raw_entries)

unfoldable pub get_list : Config → Bytes → List Bytes
get_list c section =
    map (λ e. e.value)
      (keep (λ e. bytes_eq e.section section && not (is_empty e.value)) c.raw_entries)
