-- ===== src/Admin/Requests.antt =====
-- The requests of the administration, as `JsonReader` of `src/app/admin/config_admin_parse.cpp`
-- reads them; the types are those of `config_admin_types.hpp`. A body that is refused has the error
-- of `ParseResult` and its kin, one that is accepted the request.
use asio_owen.Prelude.{
  ℕ, suc, zero, ltb, Bool, true, false, ◌||◌, not, List, [], ◌∷◌, if◌then◌else◌, some, none, Bytes,
  codes, bytes_eq, is_empty, length, ℤ, pos, ltb_ℤ,
}
use asio_owen.Admin.Json.{
  Parsed, parsed, refused, unfinished, and_then, or_fail, skip_ws, consume, expect, parse_string,
  parse_int64,
}
use asio_owen.Admin.Values.{skip_value, object_loop}

pub record ManagedFile : Type 0 where
  pub name : Bytes
  pub content : Bytes

pub record SaveRequest : Type 0 where
  pub base_version : ℤ
  pub reason : Bytes
  pub files : List ManagedFile

pub record LoginRequest : Type 0 where
  pub username : Bytes
  pub password : Bytes

-- `kMaxLoginFieldBytes`
abbrev pub max_login_field_bytes : ℕ
max_login_field_bytes = 256

-- A value that passes a test is stored, or the request fails.
unfoldable pub checked : {A R : Type 0} → Bytes → Parsed A → (A → Bool) → (A → R) → Parsed R
checked error value bad store =
    and_then (or_fail error value)
      (λ a rest. if bad a then refused error else parsed (store a) rest)

abbrev pub any_text : Bytes → Bool
any_text _ = false

-- A member that is of no interest.
unfoldable pub other_member : {R : Type 0} → R → Bytes → Parsed R
unfolding skip_value
other_member r s =
    and_then (or_fail (codes "invalid JSON value") (skip_value s)) (λ _ rest. parsed r rest)

-- A body is one object, of which `finish` looks at what was seen.
unfoldable pub parse_body :
    {R A : Type 0} → (Bytes → R → Bytes → Parsed R) → R → (R → Parsed A) → Bytes → Parsed A
unfolding expect object_loop skip_ws
parse_body field r finish body = and_then (expect b'{' (codes "expected object") body) (λ _ s.
    and_then (object_loop (suc (length s)) field r s)
      (λ r s. if is_empty (skip_ws s) then finish r else refused (codes "trailing data")))

pub record LoginFields : Type 0 where
  pub request : LoginRequest
  pub saw_username : Bool
  pub saw_password : Bool

abbrev pub bad_login_field : Bytes → Bool
bad_login_field value = is_empty value || ltb max_login_field_bytes (length value)

unfoldable pub login_field : Bytes → LoginFields → Bytes → Parsed LoginFields
unfolding parse_string checked other_member
login_field key r s =
    if bytes_eq key (codes "username")
    then checked (codes "invalid username") (parse_string s) bad_login_field
        (λ value. record r { request = record r.request { username = value }; saw_username = true })
    else if bytes_eq key (codes "password")
    then checked (codes "invalid password") (parse_string s) bad_login_field
        (λ value. record r { request = record r.request { password = value }; saw_password = true })
    else other_member r s

unfoldable pub finish_login : LoginFields → Parsed LoginRequest
finish_login r =
    if not r.saw_username
    then refused (codes "missing username")
    else if not r.saw_password
    then refused (codes "missing password")
    else parsed r.request []

abbrev pub no_login : LoginFields
no_login = record {
  request = record { username = []; password = [] };
  saw_username = false;
  saw_password = false;
}

unfoldable pub parse_login_request : Bytes → Parsed LoginRequest
unfolding parse_body login_field finish_login
parse_login_request body = parse_body login_field no_login finish_login body

pub record FileFields : Type 0 where
  pub file : ManagedFile
  pub saw_name : Bool
  pub saw_content : Bool

unfoldable pub file_field : Bytes → FileFields → Bytes → Parsed FileFields
unfolding parse_string checked other_member
file_field key r s =
    if bytes_eq key (codes "name")
    then checked [] (parse_string s) any_text
        (λ value. record r { file = record r.file { name = value }; saw_name = true })
    else if bytes_eq key (codes "content")
    then checked [] (parse_string s) any_text
        (λ value. record r { file = record r.file { content = value }; saw_content = true })
    else other_member r s

abbrev pub no_file : FileFields
no_file = record {
  file = record { name = []; content = [] };
  saw_name = false;
  saw_content = false;
}

unfoldable pub parse_file_object : Bytes → Parsed ManagedFile
unfolding expect object_loop file_field
parse_file_object s = and_then (expect b'{' [] s) (λ _ s.
    and_then (object_loop (suc (length s)) file_field no_file s)
      (λ r rest. if not r.saw_name || not r.saw_content then refused [] else parsed r.file rest))

-- Here too, the array may end after a comma.
unfoldable pub files_loop : ℕ → Bytes → Parsed (List ManagedFile)
unfolding consume expect parse_file_object
files_loop zero s = unfinished
files_loop (suc fuel) s = elim (consume b']' s) [
  | some rest ↦ parsed [] rest
  | none ↦ and_then (parse_file_object s) (λ file s. elim (consume b',' s) [
    | some rest ↦ and_then (files_loop fuel rest) (λ files rest. parsed (file ∷ files) rest)
    | none ↦ and_then (expect b']' [] s) (λ _ rest. parsed (file ∷ []) rest)
  ])
]

unfoldable pub parse_files_array : Bytes → Parsed (List ManagedFile)
unfolding expect files_loop
parse_files_array s = and_then (expect b'[' [] s) (λ _ s. files_loop (suc (length s)) s)

pub record SaveFields : Type 0 where
  pub request : SaveRequest
  pub saw_base_version : Bool
  pub saw_files : Bool

abbrev pub is_negative : ℤ → Bool
is_negative v = ltb_ℤ v (pos 0)

abbrev pub is_not_positive : ℤ → Bool
is_not_positive v = not (ltb_ℤ (pos 0) v)

unfoldable pub save_field : Bytes → SaveFields → Bytes → Parsed SaveFields
unfolding parse_string parse_int64 parse_files_array checked other_member
save_field key r s =
    if bytes_eq key (codes "base_version")
    then checked (codes "invalid base_version") (parse_int64 s) is_negative (λ value. record r {
      request = record r.request { base_version = value };
      saw_base_version = true;
    })
    else if bytes_eq key (codes "reason")
    then checked (codes "invalid reason") (parse_string s) any_text
        (λ value. record r { request = record r.request { reason = value } })
    else if bytes_eq key (codes "files")
    then checked (codes "invalid files array") (parse_files_array s) (λ _. false)
        (λ files. record r { request = record r.request { files = files }; saw_files = true })
    else other_member r s

unfoldable pub finish_save : SaveFields → Parsed SaveRequest
finish_save r =
    if not r.saw_base_version
    then refused (codes "missing base_version")
    else if not r.saw_files
    then refused (codes "missing files")
    else parsed r.request []

abbrev pub no_save : SaveFields
no_save = record {
  request = record { base_version = pos 0; reason = []; files = [] };
  saw_base_version = false;
  saw_files = false;
}

unfoldable pub parse_save_request : Bytes → Parsed SaveRequest
unfolding parse_body save_field finish_save
parse_save_request body = parse_body save_field no_save finish_save body
