-- ===== src/Config/Print.antt =====
-- Entries written out as lines are read back.
use asio_owen.Prelude.{
  ℕ, ◌-◌, ◌==◌, ◌&&◌, ◌||◌, true, false, List, [], ◌∷◌, ◌++◌, if◌then◌else◌, some, none, Option,
  append-nil, append_assoc, bytes_eq, Bool, Bytes, is_space, trim_left, trim_right, trim, has_byte,
  before_byte, after_byte, back?, length, length-append, take, is_empty, All, ◌≡◌, refl, sym, ap,
  subst, ◌∙◌, arith,
}
use asio_owen.Config.Entries.{later, last_value}
use asio_owen.Config.{
  find, qualified_key, Entry, Config, header, header_line, setting_line, setting, read_trimmed,
  read_line, add_entry, after_line, load_lines,
}

-- With no space at either end.
abbrev pub IsTrimmed : Bytes → Type 0
IsTrimmed s = (trim_left s ≡ s) × (trim_right s ≡ s)

-- A key that can stand before the `=` of a line.
abbrev pub IsKey : Bytes → Type 0
IsKey [] = ⊥
IsKey (c ∷ s) =
    IsTrimmed (c ∷ s)
    × (is_space c ≡ false)
    × (has_byte b'=' (c ∷ s) ≡ false)
    × ((c == b'#' || c == b';' || c == b'[') ≡ false)

abbrev pub IsPlain : Entry → Type 0
IsPlain e = IsKey e.key × IsTrimmed e.value

abbrev pub print_header : Entry → Bytes
print_header e = b'[' ∷ e.section ++ b']' ∷ []

abbrev pub print_setting : Entry → Bytes
print_setting e = e.key ++ b'=' ∷ e.value

abbrev pub print : List Entry → List Bytes
print [] = []
print (e ∷ es) = print_header e ∷ print_setting e ∷ print es

trim-IsTrimmed : (s : Bytes) → IsTrimmed s → trim s ≡ s
unfolding trim
trim-IsTrimmed s (a, b) = ap trim_right a ∙ b

is_empty-append : (a : Bytes) (x : ℕ) (b : Bytes) → is_empty (a ++ x ∷ b) ≡ false
is_empty-append [] x b = refl
is_empty-append (c ∷ a) x b = refl

not_empty :
    (c : ℕ) (r : Bytes)
    → is_empty r ≡ false
    → (if is_empty r && is_space c then [] else c ∷ r) ≡ c ∷ r
not_empty c r h = ground arith

trim_right-append :
    (a b : Bytes) (x : ℕ)
    → is_space x ≡ false
    → trim_right b ≡ b
    → trim_right (a ++ x ∷ b) ≡ a ++ x ∷ b
unfolding trim_right
trim_right-append [] b x n h = ground (arith, h, n)
trim_right-append (c ∷ a) b x n h =
    subst (λ r. (if is_empty r && is_space c then [] else c ∷ r) ≡ c ∷ a ++ x ∷ b)
      (sym (trim_right-append a b x n h)) (not_empty c (a ++ x ∷ b) (is_empty-append a x b))

before_byte-append : (a b : Bytes) → has_byte b'=' a ≡ false → before_byte b'=' (a ++ b'=' ∷ b) ≡ a
unfolding before_byte has_byte
before_byte-append [] b h = refl
before_byte-append (c ∷ a) b h = ground (arith, before_byte-append a b)

after_byte-append :
    (a b : Bytes) → has_byte b'=' a ≡ false → after_byte b'=' (a ++ b'=' ∷ b) ≡ some b
unfolding after_byte has_byte
after_byte-append [] b h = refl
after_byte-append (c ∷ a) b h = ground (arith, after_byte-append a b)

back?-append : (a : Bytes) (x : ℕ) → back? (a ++ x ∷ []) ≡ some x
back?-append [] x = refl
back?-append (c ∷ []) x = refl
back?-append (c ∷ d ∷ a) x = back?-append (d ∷ a) x

take-append : (a b : Bytes) → take (length a) (a ++ b) ≡ a
take-append [] b = refl
take-append (c ∷ a) b = ap (◌∷◌ c) (take-append a b)

inside_brackets :
    (section : Bytes)
    → take (length (b'[' ∷ section ++ b']' ∷ []) - 2) (section ++ b']' ∷ []) ≡ section
inside_brackets section =
    subst (λ n. take n (section ++ b']' ∷ []) ≡ section)
      (omega (arith, length-append section (b']' ∷ []))) (take-append section (b']' ∷ []))

read_trimmed-header :
    (section : Bytes) → read_trimmed (b'[' ∷ section ++ b']' ∷ []) ≡ header section
unfolding read_trimmed
read_trimmed-header section =
    ap (header_line (b'[' ∷ section ++ b']' ∷ [])) (back?-append (b'[' ∷ section) b']')
    ∙ ap header (inside_brackets section)

read_line-header : (e : Entry) → read_line (print_header e) ≡ header e.section
unfolding trim trim_left is_space trim_right
read_line-header e =
    ap read_trimmed (trim_right-append (b'[' ∷ e.section) [] b']' refl refl)
    ∙ read_trimmed-header e.section

trim_left_first : (c : ℕ) (s : Bytes) → is_space c ≡ false → trim_left (c ∷ s) ≡ c ∷ s
unfolding trim_left
trim_left_first c s h = ground arith

equals_no_space : is_space b'=' ≡ false
unfolding is_space
equals_no_space = refl

read_trimmed_key :
    (c : ℕ) (rest : Bytes)
    → (c == b'#' || c == b';' || c == b'[') ≡ false
    → read_trimmed (c ∷ rest) ≡ setting_line (c ∷ rest) (after_byte b'=' (c ∷ rest))
unfolding read_trimmed
read_trimmed_key c rest h = ground arith

trim-setting :
    (key value : Bytes)
    → IsKey key
    → IsTrimmed value
    → trim (key ++ b'=' ∷ value) ≡ key ++ b'=' ∷ value
unfolding trim trim_left
trim-setting [] value k v = absurd k
trim-setting (c ∷ key) value k v =
    ap trim_right (trim_left_first c (key ++ b'=' ∷ value) k.1)
    ∙ trim_right-append (c ∷ key) value b'=' equals_no_space v.1

read_trimmed-setting :
    (key value : Bytes)
    → IsKey key
    → IsTrimmed value
    → read_trimmed (key ++ b'=' ∷ value) ≡ setting key value
read_trimmed-setting [] value k v = absurd k
read_trimmed-setting (c ∷ key) value k v =
    let line = c ∷ key ++ b'=' ∷ value in
    read_trimmed_key c (key ++ b'=' ∷ value) k.3
    ∙ ap (setting_line line) (after_byte-append (c ∷ key) value k.2)
    ∙ ap (λ b. setting (trim b) (trim value)) (before_byte-append (c ∷ key) value k.2)
    ∙ ap (λ b. setting b (trim value)) (trim-IsTrimmed (c ∷ key) k.0)
    ∙ ap (setting (c ∷ key)) (trim-IsTrimmed value v)

read_line-setting : (e : Entry) → IsPlain e → read_line (print_setting e) ≡ setting e.key e.value
read_line-setting e (k, v) =
    ap read_trimmed (trim-setting e.key e.value k v) ∙ read_trimmed-setting e.key e.value k v

abbrev add_all : List Entry → Config → Config
add_all [] c = c
add_all (e ∷ es) c = add_all es (add_entry e c)

load_lines-add_all :
    (section : Bytes) (es : List Entry) (c : Config)
    → All IsPlain es
    → load_lines section (print es) c ≡ (add_all es c, true)
unfolding load_lines
load_lines-add_all section [] c h = refl
load_lines-add_all section (e ∷ es) c h =
    ap (after_line (λ s d. load_lines s (print_setting e ∷ print es) d) section c)
      (read_line-header e)
    ∙ ap (after_line (λ s d. load_lines s (print es) d) e.section c) (read_line-setting e h.0)
    ∙ load_lines-add_all e.section es (add_entry e c) h.1

add_all_entries : (es : List Entry) (c : Config) → (add_all es c).raw_entries ≡ c.raw_entries ++ es
add_all_entries [] c = sym (append-nil c.raw_entries)
add_all_entries (e ∷ es) c =
    add_all_entries es (add_entry e c) ∙ append_assoc c.raw_entries (e ∷ []) es

-- What a key is set to after the entries: by the last of them that sets it, or as before.
abbrev pub set_by : Bytes → List Entry → Option Bytes → Option Bytes
set_by k es before = later (last_value k es) before

set_before :
    (o : Option Bytes) (b : Bool) (v : Bytes) (before : Option Bytes)
    → later o (if b then some v else before) ≡ later (later o (if b then some v else none)) before
set_before (some w) b v before = refl
set_before none true v before = refl
set_before none false v before = refl

add_all_values :
    (k : Bytes) (es : List Entry) (c : Config)
    → find k (add_all es c).values ≡ set_by k es (find k c.values)
add_all_values k [] c = refl
add_all_values k (e ∷ es) c =
    add_all_values k es (add_entry e c)
    ∙ set_before (last_value k es) (bytes_eq (qualified_key e.section e.key) k) e.value
        (find k c.values)

-- Whatever section was open, entries that are printed are read back: they stand behind the entries
-- that were there, in their order, and a key has the value of the last of them that sets it, or the one
-- that it had.
pub load_lines-print :
    (section : Bytes) (es : List Entry) (c : Config)
    → All IsPlain es
    → (d : Config) × (load_lines section (print es) c ≡ (d, true))
      × (d.raw_entries ≡ c.raw_entries ++ es)
      × ((k : Bytes) → find k d.values ≡ set_by k es (find k c.values))
load_lines-print section es c h = (
  add_all es c,
  load_lines-add_all section es c h,
  add_all_entries es c,
  (λ k. add_all_values k es c),
)
