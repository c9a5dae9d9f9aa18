-- ===== src/Admin/Changes.antt =====
-- What is known of an accepted request to save.
use asio_owen.Prelude.{
  ℕ, suc, zero, ◌<◌, Bool, true, false, not, ◌||◌, [], if◌then◌else◌, Bytes, bytes_eq, length, ℤ,
  pos, negsuc, ◌≤ℤ◌, ◌≡◌, refl, arith,
}
use asio_owen.Admin.Json.{Parsed, parsed, refused, parse_string, parse_int64, expect}
use asio_owen.Admin.Values.{object_loop}
use asio_owen.Admin.Json.Ends.{
  Ends, and_then-Ends, Ends-mono, expect-Ends, consume-Ends, parse_string-Ends,
}
use asio_owen.Admin.Values.Ends.{if_Ends, object_loop-Ends, parse_int64-Ends}
use asio_owen.Admin.Settled.{
  Holds, Settled, if_Holds, other_member-Ends, other_member-Holds, parse_body-Settled,
}
use asio_owen.Admin.Valid.{member-Ends, member-Holds}
use asio_owen.Admin.Requests.{
  SaveRequest, FileFields, any_text, file_field, no_file, parse_file_object, files_loop,
  parse_files_array, SaveFields, is_negative, is_not_positive, save_field, finish_save, no_save,
  parse_save_request,
}

file_field-Ends : (key : Bytes) (r : FileFields) (s : Bytes) → Ends (length s) (file_field key r s)
unfolding file_field
file_field-Ends key r s =
    member-Ends s (bytes_eq key _) _ (parse_string s) any_text _ _ (parse_string-Ends s) (
      member-Ends s (bytes_eq key _) _ (parse_string s) any_text _ _ (parse_string-Ends s)
        (other_member-Ends r s))

parse_file_object-Ends : (s : Bytes) → Ends (length s) (parse_file_object s)
unfolding parse_file_object
parse_file_object-Ends s =
    and_then-Ends (length s) _ (expect b'{' [] s) _ (expect-Ends b'{' [] s) (λ _ t i.
      and_then-Ends (length t) _ (object_loop (suc (length t)) file_field no_file t) _
        (object_loop-Ends (suc (length t)) file_field file_field-Ends no_file t (omega arith))
        (λ r rest j.
          if_Ends (length s) (not r.saw_name || not r.saw_content) (refused []) (parsed r.file rest)
            tt (omega arith)))

files_loop-Ends : (fuel : ℕ) (s : Bytes) → length s < fuel → Ends (length s) (files_loop fuel s)
unfolding files_loop
files_loop-Ends zero s h = omega arith
files_loop-Ends (suc fuel) s h =
    consume-Ends b']' (length s) s _ (λ rest. parsed [] rest)
      (and_then-Ends (length s) _ (parse_file_object s) _ (parse_file_object-Ends s) (λ file t i.
        consume-Ends b',' (length s) t _ _
          (and_then-Ends (length t) _ (expect b']' [] t) _ (expect-Ends b']' [] t)
            (λ _ rest j. omega arith))
          (λ rest j.
            and_then-Ends (length rest) _ (files_loop fuel rest) _
              (files_loop-Ends fuel rest (omega arith)) (λ files u k. omega arith))))
      (λ rest l. l)

parse_files_array-Ends : (s : Bytes) → Ends (length s) (parse_files_array s)
unfolding parse_files_array
parse_files_array-Ends s =
    and_then-Ends (length s) _ (expect b'[' [] s) _ (expect-Ends b'[' [] s) (λ _ t i.
      Ends-mono (length t) _ _ (omega arith) (files_loop-Ends (suc (length t)) t (omega arith)))

pub natural : (v : ℤ) → is_negative v ≡ false → pos 0 ≤ℤ v
natural (pos n) h = omega arith
natural (negsuc n) h = ground arith

pub positive : (v : ℤ) → is_not_positive v ≡ false → pos 1 ≤ℤ v
positive (pos n) h = ground arith
positive (negsuc n) h = ground arith

save_field-Ends : (key : Bytes) (r : SaveFields) (s : Bytes) → Ends (length s) (save_field key r s)
unfolding save_field
save_field-Ends key r s =
    member-Ends s (bytes_eq key _) _ (parse_int64 s) _ _ _ (parse_int64-Ends s) (
      member-Ends s (bytes_eq key _) _ (parse_string s) any_text _ _ (parse_string-Ends s) (
        member-Ends s (bytes_eq key _) _ (parse_files_array s) (λ _. false) _ _
          (parse_files_array-Ends s) (other_member-Ends r s)))

abbrev pub IsSave : SaveRequest → Type 0
IsSave q = pos 0 ≤ℤ q.base_version

save_field-Holds :
    (key : Bytes) (r : SaveFields) (s : Bytes)
    → IsSave r.request
    → Holds (λ r. IsSave r.request) (save_field key r s)
unfolding save_field
save_field-Holds key r s h =
    let Kept : SaveFields → Type 0 = λ r. IsSave r.request in
    member-Holds Kept (bytes_eq key _) _ (parse_int64 s) _ _ _ (λ v ok. natural v ok)
      (member-Holds Kept (bytes_eq key _) _ (parse_string s) any_text _ _ (λ v ok. h)
        (member-Holds Kept (bytes_eq key _) _ (parse_files_array s) (λ _. false) _ _ (λ v ok. h)
          (other_member-Holds Kept r s h)))

-- The checks at the end, each of which may refuse.
pub unless_Ends :
    {A : Type 0} (n : ℕ) (b : Bool) (error : Bytes) (p : Parsed A)
    → Ends n p
    → Ends n (if b then refused error else p)
unless_Ends n b error p h = if_Ends n b (refused error) p tt h

pub unless_Holds :
    {A : Type 0} (P : A → Type 0) (b : Bool) (error : Bytes) (p : Parsed A)
    → (b ≡ false → Holds P p)
    → Holds P (if b then refused error else p)
unless_Holds P b error p h = if_Holds P b (refused error) p (λ _. tt) h

pub seen : (b : Bool) → not b ≡ false → b ≡ true
seen true h = refl
seen false h = absurd cc

pub parse_save_request-Settled : (body : Bytes) → Settled IsSave (parse_save_request body)
unfolding parse_save_request finish_save
parse_save_request-Settled body =
    parse_body-Settled (λ r. IsSave r.request) IsSave save_field finish_save save_field-Ends
      save_field-Holds
      (λ r.
        unless_Ends 1 (not r.saw_base_version) _ _
          (unless_Ends 1 (not r.saw_files) _ (parsed r.request []) (omega arith)))
      (λ r h.
        unless_Holds IsSave (not r.saw_base_version) _ _
          (λ _. unless_Holds IsSave (not r.saw_files) _ (parsed r.request []) (λ _. h)))
      no_save body (omega arith)
