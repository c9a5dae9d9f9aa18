-- ===== src/Admin/Valid.antt =====
-- What is known of a request of the administration that is accepted.
use asio_owen.Prelude.{
  ◌≤◌, Bool, true, false, if◌then◌else◌, Bytes, bytes_eq, is_empty, length, ◌≡◌, inl, inr, arith,
  Bool-cases,
}
use asio_owen.Admin.Json.{Parsed, parse_string}
use asio_owen.Admin.Json.Ends.{Ends, parse_string-Ends}
use asio_owen.Admin.Values.Ends.{if_Ends}
use asio_owen.Admin.Settled.{
  Holds, Settled, if_Holds, checked-Ends, checked-Holds, other_member-Ends, other_member-Holds,
  parse_body-Settled,
}
use asio_owen.Admin.Requests.{
  LoginRequest, checked, max_login_field_bytes, LoginFields, bad_login_field, login_field,
  finish_login, no_login, parse_login_request,
}

-- A member of which the values are read by `read`, or of no interest.
pub member-Ends :
    {A R : Type 0} (s : Bytes) (b : Bool) (error : Bytes) (value : Parsed A) (bad : A → Bool)
    (store : A → R) (other : Parsed R)
    → Ends (length s) value
    → Ends (length s) other
    → Ends (length s) (if b then checked error value bad store else other)
member-Ends s b error value bad store other h k =
    if_Ends (length s) b (checked error value bad store) other
      (checked-Ends (length s) error value bad store h) k

pub member-Holds :
    {A R : Type 0} (P : R → Type 0) (b : Bool) (error : Bytes) (value : Parsed A) (bad : A → Bool)
    (store : A → R) (other : Parsed R)
    → ((a : A) → bad a ≡ false → P (store a))
    → Holds P other
    → Holds P (if b then checked error value bad store else other)
member-Holds P b error value bad store other h k =
    if_Holds P b (checked error value bad store) other
      (λ _. checked-Holds P error value bad store h) (λ _. k)

-- A name or a password.
abbrev IsLoginField : Bytes → Type 0
IsLoginField value = (is_empty value ≡ false) × (length value ≤ max_login_field_bytes)

abbrev pub IsLogin : LoginRequest → Type 0
IsLogin r = IsLoginField r.username × IsLoginField r.password

abbrev KeepsLogin : LoginFields → Type 0
KeepsLogin r =
    (r.saw_username ≡ true → IsLoginField r.request.username)
    × (r.saw_password ≡ true → IsLoginField r.request.password)

good_field : (value : Bytes) → bad_login_field value ≡ false → IsLoginField value
good_field value h = elim (Bool-cases (is_empty value)) [
  | inl e ↦ ground arith
  | inr e ↦ (e, ground arith)
]

login_field-Ends :
    (key : Bytes) (r : LoginFields) (s : Bytes) → Ends (length s) (login_field key r s)
unfolding login_field
login_field-Ends key r s =
    member-Ends s (bytes_eq key _) _ (parse_string s) _ _ _ (parse_string-Ends s) (
      member-Ends s (bytes_eq key _) _ (parse_string s) _ _ _ (parse_string-Ends s)
        (other_member-Ends r s))

login_field-Holds :
    (key : Bytes) (r : LoginFields) (s : Bytes)
    → KeepsLogin r
    → Holds KeepsLogin (login_field key r s)
unfolding login_field
login_field-Holds key r s h =
    member-Holds KeepsLogin (bytes_eq key _) _ (parse_string s) _ _ _
      (λ v ok. ((λ _. good_field v ok), h.1))
      (member-Holds KeepsLogin (bytes_eq key _) _ (parse_string s) _ _ _
        (λ v ok. (h.0, (λ _. good_field v ok))) (other_member-Holds KeepsLogin r s h))

-- A body is never read without end, and a login that is accepted has a name and a password, of
-- one byte at least and of 256 at most.
pub parse_login_request-Settled : (body : Bytes) → Settled IsLogin (parse_login_request body)
unfolding parse_login_request finish_login
parse_login_request-Settled body =
    parse_body-Settled KeepsLogin IsLogin login_field finish_login login_field-Ends
      login_field-Holds (λ r. finish_ends r.saw_username r.saw_password r.request) finish_holds
      no_login body ((λ e. absurd cc), (λ e. absurd cc))
  where
    finish_ends :
        (a b : Bool) (q : LoginRequest)
        → Ends 1 (finish_login (record { request = q; saw_username = a; saw_password = b }))
    finish_ends true true q = omega arith
    finish_ends true false q = tt
    finish_ends false b q = tt

    finish_holds : (r : LoginFields) → KeepsLogin r → Holds IsLogin (finish_login r)
    finish_holds r h = elim (Bool-cases r.saw_username) [
      | inl a ↦ elim (Bool-cases r.saw_password) [
        | inl b ↦ rw (Holds, a, b) (h.0 a, h.1 b)
        | inr b ↦ rw (Holds, a, b) tt
      ]
      | inr a ↦ rw (Holds, a) tt
    ]
