-- ===== src/Tests/Admin.antt =====
-- Requests of the administration that are accepted.
use asio_owen.Prelude.{List, arith, [], ◌∷◌, Bytes, codes, bytes_eq, pos, refl, ◌≡◌}
use asio_owen.Admin.Json.{parsed, refused, parse_string}
use asio_owen.Admin.Settled.{Settled}
use asio_owen.Admin.Requests.{ManagedFile, parse_login_request, parse_save_request}
use asio_owen.Admin.Versions.{
  OrphanResolutionRequest, parse_rollback_request, parse_repair_request,
  parse_orphan_resolution_request,
}
use asio_owen.Admin.Valid.{IsLogin, parse_login_request-Settled}
use asio_owen.Admin.Changes.{IsSave}
use asio_owen.Admin.Objects.{IsSaveObject, IsRollbackObject, IsRepairObject, IsOrphanObject}
use asio_owen.Admin.RoundTrip.{save_text, parse_save_request-save_text}
use asio_owen.Admin.Accepted.{IsRollback, IsRepair, IsOrphan, changes-Settled}

abbrev login_body : Bytes
login_body =
    codes "{\"username\": \"bob\", \"extra\": [1, {\"a\": null}], \"password\": \"s\\u0065cret\"}"

login_read :
    parse_login_request login_body
    ≡ parsed (record { username = codes "bob"; password = codes "secret" }) []
unfolding parse_login_request bytes_eq
login_read = refl

parse_login_request-Settled_example :
    IsLogin (record { username = codes "bob"; password = codes "secret" })
unfolding parse_login_request bytes_eq
parse_login_request-Settled_example = parse_login_request-Settled login_body

abbrev orphan_body : Bytes
orphan_body =
    codes
      "{\"current_version\":3,\"target_version\":4,\"action\":\"delete-orphan\",\"reason\":\"stale\",\"confirmation\":\"DELETE_UNPUBLISHED_ORPHAN\"}"

abbrev orphan : OrphanResolutionRequest
orphan = record {
  current_version = pos 3;
  target_version = pos 4;
  action = codes "delete-orphan";
  reason = codes "stale";
  confirmation = codes "DELETE_UNPUBLISHED_ORPHAN";
}

changes-Settled_example :
    Settled (λ a. IsSave a × IsSaveObject orphan_body a) (parse_save_request orphan_body)
    × Settled
        (λ a. IsRollback a × IsRollbackObject orphan_body a)
        (parse_rollback_request orphan_body)
    × Settled (λ a. IsRepair a × IsRepairObject orphan_body a) (parse_repair_request orphan_body)
    × (IsOrphan orphan × IsOrphanObject orphan_body orphan)
unfolding parse_orphan_resolution_request bytes_eq
changes-Settled_example = changes-Settled orphan_body

save_read :
    parse_save_request
      (codes "{\"base_version\":-0,\"files\":[{\"name\":\"a\",\"content\":\"b\\n\"},],}")
    ≡ parsed
        (record {
          base_version = pos 0;
          reason = [];
          files = record { name = codes "a"; content = codes "b\n" } ∷ [];
        })
        []
unfolding parse_save_request bytes_eq
save_read = refl

negative_refused :
    parse_rollback_request (codes "{\"base_version\":-1}") ≡ refused (codes "invalid base_version")
unfolding parse_rollback_request bytes_eq
negative_refused = refl

surrogates_apart :
    parse_string (codes "\"\\ud83d\\ude00\"") ≡ parsed (237 ∷ 160 ∷ 189 ∷ 237 ∷ 184 ∷ 128 ∷ []) []
unfolding parse_string
surrogates_apart = refl

abbrev two_files : List ManagedFile
two_files =
    record { name = codes "app.ini"; content = codes "[a]\nb = \"c\"\n" }
    ∷ record { name = codes "b.ini"; content = [] }
    ∷ []

parse_save_request-save_text_example :
    parse_save_request (save_text 12 (codes "tab\t") two_files)
    ≡ parsed (record { base_version = pos 12; reason = codes "tab\t"; files = two_files }) []
parse_save_request-save_text_example =
    parse_save_request-save_text 12 (codes "tab\t") two_files (omega arith)
