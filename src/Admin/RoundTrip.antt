-- ===== src/Admin/RoundTrip.antt =====
-- A request to save that a client writes out, read back.
use asio_owen.Prelude.{
  ℕ, suc, zero, ◌≤◌, ◌<◌, ◌^◌, Bool, true, false, List, [], ◌∷◌, ◌++◌, some, none, Bytes, bytes_eq,
  codes, length, length-append, pos, ◌≡◌, refl, ap, ◌∙◌, arith, is_space, trim_left, is_empty, not,
  ◌||◌, if◌then◌else◌,
}
use asio_owen.Http.Numbers.{to_string}
use asio_owen.Http.Json.{json_escape}
use asio_owen.Admin.Json.{Parsed, parsed, refused, and_then, consume, expect, skip_ws, parse_string}
use asio_owen.Admin.Values.{object_loop}
use asio_owen.Admin.Json.Strings.{parse_string-json_escape}
use asio_owen.Admin.Json.Digits.{parse_int64-to_string}
use asio_owen.Admin.Requests.{
  ManagedFile, checked, parse_body, FileFields, file_field, no_file, parse_file_object, files_loop,
  SaveFields, save_field, finish_save, no_save, parse_save_request, any_text, is_negative,
}

-- A request as text. Each writer has what follows as its last argument.
abbrev quoted : Bytes → Bytes → Bytes
quoted s tail = 34 ∷ json_escape s ++ 34 ∷ tail

abbrev file_text : ManagedFile → Bytes → Bytes
file_text f tail =
    codes "{\"name\":" ++ quoted f.name (codes ",\"content\":" ++ quoted f.content (b'}' ∷ tail))

abbrev files_text : List ManagedFile → Bytes → Bytes
files_text [] tail = b']' ∷ tail
files_text (f ∷ []) tail = file_text f (b']' ∷ tail)
files_text (f ∷ g ∷ files) tail = file_text f (b',' ∷ files_text (g ∷ files) tail)

abbrev pub save_text : ℕ → Bytes → List ManagedFile → Bytes
save_text version reason files =
    codes "{\"base_version\":"
    ++ (to_string version
        ++ b','
          ∷ (codes "\"reason\":"
              ++ quoted reason (codes ",\"files\":[" ++ files_text files (b'}' ∷ []))))

-- A member that is read, with another behind it or as the last one.
member_then :
    {R : Type 0} (fuel : ℕ) (field : Bytes → R → Bytes → Parsed R) (r q : R) (key s t rest : Bytes)
    → consume b'}' s ≡ none
    → parse_string s ≡ parsed key (b':' ∷ t)
    → field key r t ≡ parsed q (b',' ∷ rest)
    → object_loop (suc fuel) field r s ≡ object_loop fuel field q rest
unfolding object_loop consume expect skip_ws trim_left is_space
member_then fuel field r q key s t rest e f g = rw (object_loop, e, f) (rw (and_then, g) refl)

member_last :
    {R : Type 0} (fuel : ℕ) (field : Bytes → R → Bytes → Parsed R) (r q : R) (key s t rest : Bytes)
    → consume b'}' s ≡ none
    → parse_string s ≡ parsed key (b':' ∷ t)
    → field key r t ≡ parsed q (b'}' ∷ rest)
    → object_loop (suc fuel) field r s ≡ parsed q rest
unfolding object_loop consume expect skip_ws trim_left is_space
member_last fuel field r q key s t rest e f g = rw (object_loop, e, f) (rw (and_then, g) refl)

checked-parsed :
    {A R : Type 0} (error : Bytes) (value : Parsed A) (bad : A → Bool) (store : A → R) (a : A)
    (rest : Bytes)
    → value ≡ parsed a rest
    → bad a ≡ false
    → checked error value bad store ≡ parsed (store a) rest
unfolding checked
checked-parsed error value bad store a rest e ok = rw (checked, e) (rw (and_then, ok) refl)

parse_file_object-file_text :
    (f : ManagedFile) (tail : Bytes) → parse_file_object (file_text f tail) ≡ parsed f tail
unfolding parse_file_object file_field bytes_eq expect consume skip_ws trim_left is_space
    parse_string
parse_file_object-file_text f tail =
    let last = codes "\"content\":" ++ quoted f.content (b'}' ∷ tail) in
    let inside = codes "\"name\":" ++ quoted f.name (b',' ∷ last) in
    let q : FileFields = record {
      file = record { name = f.name; content = [] };
      saw_name = true;
      saw_content = false;
    } in
    ap
      (λ p.
        and_then p (λ r rest.
          if not r.saw_name || not r.saw_content then refused [] else parsed r.file rest))
      (member_then (length inside) file_field no_file q (codes "name") inside
          (quoted f.name (b',' ∷ last)) last refl refl
          (checked-parsed [] _ any_text
            (λ v. record {
              file = record { name = v; content = [] };
              saw_name = true;
              saw_content = false;
            })
            f.name (b',' ∷ last) (parse_string-json_escape f.name (b',' ∷ last)) refl)
        ∙ member_last (length (codes "name\":" ++ quoted f.name (b',' ∷ last))) file_field q
            (record { file = f; saw_name = true; saw_content = true }) (codes "content") last
            (quoted f.content (b'}' ∷ tail)) tail refl refl
            (checked-parsed [] _ any_text
              (λ v. record {
                file = record { name = f.name; content = v };
                saw_name = true;
                saw_content = true;
              })
              f.content (b'}' ∷ tail) (parse_string-json_escape f.content (b'}' ∷ tail)) refl))

length-quoted : (s tail : Bytes) → length tail < length (quoted s tail)
length-quoted s tail = omega (arith, length-append (json_escape s) (34 ∷ tail))

length-file_text : (f : ManagedFile) (tail : Bytes) → length tail < length (file_text f tail)
length-file_text f tail = omega (
  arith,
  length-quoted f.content (b'}' ∷ tail),
  length-quoted f.name (codes ",\"content\":" ++ quoted f.content (b'}' ∷ tail)),
)

-- The files, with enough fuel for each.
files_loop-files_text :
    (fuel : ℕ) (files : List ManagedFile) (tail : Bytes)
    → length (files_text files tail) ≤ fuel
    → files_loop fuel (files_text files tail) ≡ parsed files tail
unfolding files_loop consume expect skip_ws trim_left is_space
files_loop-files_text zero [] tail h = absurd (omega arith)
files_loop-files_text zero (f ∷ []) tail h = absurd (omega arith)
files_loop-files_text zero (f ∷ g ∷ files) tail h = absurd (omega arith)
files_loop-files_text (suc fuel) [] tail h = refl
files_loop-files_text (suc fuel) (f ∷ []) tail h =
    ap
      (λ p. and_then p (λ file s. elim (consume b',' s) [
        | some rest ↦ and_then (files_loop fuel rest) (λ files rest. parsed (file ∷ files) rest)
        | none ↦ and_then (expect b']' [] s) (λ _ rest. parsed (file ∷ []) rest)
      ]))
      (parse_file_object-file_text f (b']' ∷ tail))
files_loop-files_text (suc fuel) (f ∷ g ∷ files) tail h =
    let rest = files_text (g ∷ files) tail in
    ap
      (λ p. and_then p (λ file s. elim (consume b',' s) [
        | some rest ↦ and_then (files_loop fuel rest) (λ files rest. parsed (file ∷ files) rest)
        | none ↦ and_then (expect b']' [] s) (λ _ rest. parsed (file ∷ []) rest)
      ]))
      (parse_file_object-file_text f (b',' ∷ rest))
    ∙ ap (λ p. and_then p (λ files rest. parsed (f ∷ files) rest))
        (files_loop-files_text fuel (g ∷ files) tail
          (omega (arith, h, length-file_text f (b',' ∷ rest))))

-- A request to save that is written out as JSON, with the gateway's own escaping, is read back as it
-- was, whatever bytes its reason and its files have, for every version that an `int64_t` can hold.
pub parse_save_request-save_text :
    (version : ℕ) (reason : Bytes) (files : List ManagedFile)
    → version < 2 ^ 63
    → parse_save_request (save_text version reason files)
      ≡ parsed (record { base_version = pos version; reason = reason; files = files }) []
unfolding parse_save_request save_field bytes_eq parse_body finish_save expect consume skip_ws
    trim_left is_space parse_string
parse_save_request-save_text version reason files h =
    let t3 = codes "\"files\":[" ++ files_text files (b'}' ∷ []) in
    let t2 = codes "\"reason\":" ++ quoted reason (b',' ∷ t3) in
    let t1 = codes "\"base_version\":" ++ (to_string version ++ b',' ∷ t2) in
    let q1 : SaveFields = record {
      request = record { base_version = pos version; reason = []; files = [] };
      saw_base_version = true;
      saw_files = false;
    } in
    let q2 : SaveFields = record q1 { request = record q1.request { reason = reason } } in
    let q3 : SaveFields = record q2 {
      request = record q2.request { files = files };
      saw_files = true;
    } in
    ap
      (λ p.
        and_then p
          (λ r s. if is_empty (skip_ws s) then finish_save r else refused (codes "trailing data")))
      (member_then (length t1) save_field no_save q1 (codes "base_version") t1
          (to_string version ++ b',' ∷ t2) t2 refl refl
          (checked-parsed _ _ is_negative
            (λ v. record no_save {
              request = record no_save.request { base_version = v };
              saw_base_version = true;
            })
            (pos version) (b',' ∷ t2) (parse_int64-to_string version b',' t2 h refl) (ground arith))
        ∙ member_then (length (codes "base_version\":" ++ (to_string version ++ b',' ∷ t2)))
            save_field q1 q2 (codes "reason") t2 (quoted reason (b',' ∷ t3)) t3 refl refl
            (checked-parsed _ _ any_text
              (λ v. record q1 { request = record q1.request { reason = v } }) reason (b',' ∷ t3)
              (parse_string-json_escape reason (b',' ∷ t3)) refl)
        ∙ member_last (length (codes "ase_version\":" ++ (to_string version ++ b',' ∷ t2)))
            save_field q2 q3 (codes "files") t3 (codes "[" ++ files_text files (b'}' ∷ [])) [] refl
            refl
            (checked-parsed _ _ (λ _. false)
              (λ v. record q2 { request = record q2.request { files = v }; saw_files = true }) files
              (b'}' ∷ [])
              (files_loop-files_text (suc (length (files_text files (b'}' ∷ [])))) files (b'}' ∷ [])
                (omega arith))
              refl))
