-- ===== src/Admin/Versions.antt =====
-- The requests about versions of the configuration in `src/app/admin/config_admin_parse.cpp`: to roll
-- back, to repair, and to resolve a version that was never published.
use asio_owen.Prelude.{
  Bool, true, false, ◌||◌, ◌&&◌, not, [], if◌then◌else◌, Bytes, codes, bytes_eq, is_empty, ℤ, pos,
}
use asio_owen.Admin.Json.{Parsed, parsed, refused, parse_string, parse_int64}
use asio_owen.Admin.Requests.{checked, other_member, parse_body, is_negative, is_not_positive}

pub record RollbackRequest : Type 0 where
  pub base_version : ℤ
  pub target_version : ℤ
  pub reason : Bytes

pub record RepairRequest : Type 0 where
  pub version : ℤ
  pub reason : Bytes

pub record OrphanResolutionRequest : Type 0 where
  pub current_version : ℤ
  pub target_version : ℤ
  pub action : Bytes
  pub reason : Bytes
  pub confirmation : Bytes

pub record RollbackFields : Type 0 where
  pub request : RollbackRequest
  pub saw_base : Bool
  pub saw_target : Bool
  pub saw_reason : Bool

unfoldable pub rollback_field : Bytes → RollbackFields → Bytes → Parsed RollbackFields
unfolding parse_string parse_int64 checked other_member
rollback_field key r s =
    if bytes_eq key (codes "base_version")
    then checked (codes "invalid base_version") (parse_int64 s) is_negative
        (λ value. record r { request = record r.request { base_version = value }; saw_base = true })
    else if bytes_eq key (codes "target_version")
    then checked (codes "invalid target_version") (parse_int64 s) is_not_positive (λ value.
      record r { request = record r.request { target_version = value }; saw_target = true })
    else if bytes_eq key (codes "reason")
    then checked (codes "reason is required") (parse_string s) is_empty
        (λ value. record r { request = record r.request { reason = value }; saw_reason = true })
    else other_member r s

unfoldable pub finish_rollback : RollbackFields → Parsed RollbackRequest
finish_rollback r =
    if not r.saw_base
    then refused (codes "missing base_version")
    else if not r.saw_target
    then refused (codes "missing target_version")
    else if not r.saw_reason
    then refused (codes "missing reason")
    else parsed r.request []

abbrev pub no_rollback : RollbackFields
no_rollback = record {
  request = record { base_version = pos 0; target_version = pos 0; reason = [] };
  saw_base = false;
  saw_target = false;
  saw_reason = false;
}

unfoldable pub parse_rollback_request : Bytes → Parsed RollbackRequest
unfolding parse_body rollback_field finish_rollback
parse_rollback_request body = parse_body rollback_field no_rollback finish_rollback body

pub record RepairFields : Type 0 where
  pub request : RepairRequest
  pub saw_version : Bool
  pub saw_reason : Bool

unfoldable pub repair_field : Bytes → RepairFields → Bytes → Parsed RepairFields
unfolding parse_string parse_int64 checked other_member
repair_field key r s =
    if bytes_eq key (codes "version")
    then checked (codes "invalid version") (parse_int64 s) is_not_positive
        (λ value. record r { request = record r.request { version = value }; saw_version = true })
    else if bytes_eq key (codes "reason")
    then checked (codes "reason is required") (parse_string s) is_empty
        (λ value. record r { request = record r.request { reason = value }; saw_reason = true })
    else other_member r s

unfoldable pub finish_repair : RepairFields → Parsed RepairRequest
finish_repair r =
    if not r.saw_version
    then refused (codes "missing version")
    else if not r.saw_reason
    then refused (codes "missing reason")
    else parsed r.request []

abbrev pub no_repair : RepairFields
no_repair = record {
  request = record { version = pos 0; reason = [] };
  saw_version = false;
  saw_reason = false;
}

unfoldable pub parse_repair_request : Bytes → Parsed RepairRequest
unfolding parse_body repair_field finish_repair
parse_repair_request body = parse_body repair_field no_repair finish_repair body

pub record OrphanFields : Type 0 where
  pub request : OrphanResolutionRequest
  pub saw_current : Bool
  pub saw_target : Bool
  pub saw_action : Bool
  pub saw_reason : Bool
  pub saw_confirmation : Bool

abbrev pub is_no_action : Bytes → Bool
is_no_action value =
    not (bytes_eq value (codes "restore-version")) && not (bytes_eq value (codes "delete-orphan"))

unfoldable pub orphan_field : Bytes → OrphanFields → Bytes → Parsed OrphanFields
unfolding parse_string parse_int64 checked other_member
orphan_field key r s =
    if bytes_eq key (codes "current_version")
    then checked (codes "invalid current_version") (parse_int64 s) is_negative (λ value. record r {
      request = record r.request { current_version = value };
      saw_current = true;
    })
    else if bytes_eq key (codes "target_version")
    then checked (codes "invalid target_version") (parse_int64 s) is_not_positive (λ value.
      record r { request = record r.request { target_version = value }; saw_target = true })
    else if bytes_eq key (codes "action")
    then checked (codes "invalid action") (parse_string s) is_no_action
        (λ value. record r { request = record r.request { action = value }; saw_action = true })
    else if bytes_eq key (codes "reason")
    then checked (codes "reason is required") (parse_string s) is_empty
        (λ value. record r { request = record r.request { reason = value }; saw_reason = true })
    else if bytes_eq key (codes "confirmation")
    then checked (codes "confirmation is required") (parse_string s) is_empty (λ value. record r {
      request = record r.request { confirmation = value };
      saw_confirmation = true;
    })
    else other_member r s

unfoldable pub expected_confirmation : Bytes → Bytes
expected_confirmation action =
    if bytes_eq action (codes "restore-version")
    then codes "RESTORE_VERSION_POINTER"
    else codes "DELETE_UNPUBLISHED_ORPHAN"

unfoldable pub finish_orphan : OrphanFields → Parsed OrphanResolutionRequest
unfolding expected_confirmation
finish_orphan r =
    if not r.saw_current
      || not r.saw_target
      || not r.saw_action
      || not r.saw_reason
      || not r.saw_confirmation
    then refused (codes "missing orphan resolution field")
    else if not (bytes_eq r.request.confirmation (expected_confirmation r.request.action))
    then refused (codes "confirmation text does not match action")
    else parsed r.request []

abbrev pub no_orphan : OrphanFields
no_orphan = record {
  request = record {
    current_version = pos 0;
    target_version = pos 0;
    action = [];
    reason = [];
    confirmation = [];
  };
  saw_current = false;
  saw_target = false;
  saw_action = false;
  saw_reason = false;
  saw_confirmation = false;
}

unfoldable pub parse_orphan_resolution_request : Bytes → Parsed OrphanResolutionRequest
unfolding parse_body orphan_field finish_orphan
parse_orphan_resolution_request body = parse_body orphan_field no_orphan finish_orphan body
