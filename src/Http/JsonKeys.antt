-- ===== src/Http/JsonKeys.antt =====
-- `src/http/json_transform.hpp`: the keys of a JSON text from snake case to camel case.
pub mod Members
use asio_owen.Prelude.{
  ℕ, ◌-◌, ◌==◌, leb, Bool, true, false, ◌&&◌, ◌||◌, List, [], ◌∷◌, ◌++◌, if◌then◌else◌, Bytes,
  codes,
}

pub data ScopeKind : Type 0 where
  object : ScopeKind
  array : ScopeKind

pub record Scope : Type 0 where
  pub kind : ScopeKind
  pub expect_key : Bool

-- The variables of the loop, the innermost scope first.
pub record KeyScan : Type 0 where
  pub scopes : List Scope
  pub in_string : Bool
  pub in_key : Bool
  pub next_upper : Bool

-- `std::toupper` in the C locale.
unfoldable pub to_upper_byte : ℕ → ℕ
to_upper_byte c = if leb b'a' c && leb c b'z' then c - 32 else c

abbrev pub is_object : ScopeKind → Bool
is_object object = true
is_object array = false

unfoldable pub current_object_expects_key : List Scope → Bool
current_object_expects_key [] = false
current_object_expects_key (scope ∷ scopes) = is_object scope.kind && scope.expect_key

-- `scopes.back().expect_key = value`, if the innermost scope is an object.
unfoldable pub set_expect_key : Bool → List Scope → List Scope
set_expect_key value [] = []
set_expect_key value (scope ∷ scopes) =
    (if is_object scope.kind then record scope { expect_key = value } else scope) ∷ scopes

abbrev pub pop : List Scope → List Scope
pop [] = []
pop (scope ∷ scopes) = scopes

-- What one byte of a string adds to the output, and the variables after it.
unfoldable pub string_step : KeyScan → ℕ → Bytes × KeyScan
unfolding set_expect_key to_upper_byte
string_step st c =
    if c == 34
    then (
      c ∷ [],
      record {
        scopes = if st.in_key then set_expect_key false st.scopes else st.scopes;
        in_string = false;
        in_key = false;
        next_upper = false;
      },
    )
    else if st.in_key
    then (if c == b'_'
        then ([], record st { next_upper = true })
        else if st.next_upper
        then (to_upper_byte c ∷ [], record st { next_upper = false })
        else (c ∷ [], st))
    else (c ∷ [], st)

unfoldable pub scopes_after : List Scope → ℕ → List Scope
unfolding set_expect_key
scopes_after scopes c =
    if c == b'{'
    then record { kind = object; expect_key = true } ∷ scopes
    else if c == b'['
    then record { kind = array; expect_key = false } ∷ scopes
    else if c == b'}' || c == b']'
    then pop scopes
    else if c == b','
    then set_expect_key true scopes
    else scopes

unfoldable pub outer_step : KeyScan → ℕ → Bytes × KeyScan
unfolding current_object_expects_key scopes_after
outer_step st c =
    if c == 34
    then (
      c ∷ [],
      record {
        scopes = st.scopes;
        in_string = true;
        in_key = current_object_expects_key st.scopes;
        next_upper = false;
      },
    )
    else (c ∷ [], record st { scopes = scopes_after st.scopes c })

unfoldable pub byte_step : KeyScan → ℕ → Bytes × KeyScan
unfolding string_step outer_step
byte_step st c = if st.in_string then string_step st c else outer_step st c

-- The loop. A backslash in a string takes the next byte with it, if there is one.
unfoldable pub rename_keys : KeyScan → Bytes → Bytes
unfolding byte_step
rename_keys st [] = []
rename_keys st (c ∷ []) = (byte_step st c).0
rename_keys st (c ∷ d ∷ rest) = elim (st.in_string && c == 92) [
  | true ↦ c ∷ d ∷ rename_keys st rest
  | false ↦ (byte_step st c).0 ++ rename_keys (byte_step st c).1 (d ∷ rest)
]

abbrev pub first_scan : KeyScan
first_scan = record { scopes = []; in_string = false; in_key = false; next_upper = false }

unfoldable pub json_keys_snake_to_camel : Bytes → Bytes
unfolding rename_keys
json_keys_snake_to_camel json = rename_keys first_scan json
