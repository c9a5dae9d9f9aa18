-- ===== src/Admin/Accepted.antt =====
-- What is known of an accepted request to roll back or to repair, or to resolve an orphan.
use asio_owen.Prelude.{
  Bool, true, false, not, ◌||◌, ◌&&◌, [], if◌then◌else◌, Bytes, codes, bytes_eq, bytes_eq_iff,
  is_empty, length, pos, ◌≤ℤ◌, ◌≡◌, ◌⊎◌, inl, inr, refl, arith, Bool-cases, ap, sym, ◌∙◌,
}
use asio_owen.Admin.Json.{parsed, parse_string, parse_int64}
use asio_owen.Admin.Json.Ends.{Ends, parse_string-Ends}
use asio_owen.Admin.Values.Ends.{parse_int64-Ends}
use asio_owen.Admin.Settled.{
  Holds, Settled, other_member-Ends, other_member-Holds, parse_body-Settled,
}
use asio_owen.Admin.Valid.{member-Ends, member-Holds}
use asio_owen.Admin.Requests.{parse_save_request}
use asio_owen.Admin.Changes.{
  IsSave, parse_save_request-Settled, unless_Ends, unless_Holds, seen, natural, positive,
}
use asio_owen.Admin.Objects.{
  Settled-and, IsSaveObject, IsRollbackObject, IsRepairObject, IsOrphanObject,
  parse_save_request-IsSaveObject, parse_rollback_request-IsRollbackObject,
  parse_repair_request-IsRepairObject, parse_orphan_resolution_request-IsOrphanObject,
}
use asio_owen.Admin.Versions.{
  RollbackRequest, RepairRequest, OrphanResolutionRequest, RollbackFields, rollback_field,
  finish_rollback, no_rollback, parse_rollback_request, RepairFields, repair_field, finish_repair,
  no_repair, parse_repair_request, OrphanFields, is_no_action, orphan_field, expected_confirmation,
  finish_orphan, no_orphan, parse_orphan_resolution_request,
}

rollback_field-Ends :
    (key : Bytes) (r : RollbackFields) (s : Bytes) → Ends (length s) (rollback_field key r s)
unfolding rollback_field
rollback_field-Ends key r s =
    member-Ends s (bytes_eq key _) _ (parse_int64 s) _ _ _ (parse_int64-Ends s) (
      member-Ends s (bytes_eq key _) _ (parse_int64 s) _ _ _ (parse_int64-Ends s) (
        member-Ends s (bytes_eq key _) _ (parse_string s) _ _ _ (parse_string-Ends s)
          (other_member-Ends r s)))

repair_field-Ends :
    (key : Bytes) (r : RepairFields) (s : Bytes) → Ends (length s) (repair_field key r s)
unfolding repair_field
repair_field-Ends key r s =
    member-Ends s (bytes_eq key _) _ (parse_int64 s) _ _ _ (parse_int64-Ends s) (
      member-Ends s (bytes_eq key _) _ (parse_string s) _ _ _ (parse_string-Ends s)
        (other_member-Ends r s))

orphan_field-Ends :
    (key : Bytes) (r : OrphanFields) (s : Bytes) → Ends (length s) (orphan_field key r s)
unfolding orphan_field
orphan_field-Ends key r s =
    member-Ends s (bytes_eq key _) _ (parse_int64 s) _ _ _ (parse_int64-Ends s) (
      member-Ends s (bytes_eq key _) _ (parse_int64 s) _ _ _ (parse_int64-Ends s) (
        member-Ends s (bytes_eq key _) _ (parse_string s) _ _ _ (parse_string-Ends s) (
          member-Ends s (bytes_eq key _) _ (parse_string s) _ _ _ (parse_string-Ends s) (
            member-Ends s (bytes_eq key _) _ (parse_string s) _ _ _ (parse_string-Ends s)
              (other_member-Ends r s)))))

abbrev pub IsRollback : RollbackRequest → Type 0
IsRollback q = (pos 0 ≤ℤ q.base_version) × (pos 1 ≤ℤ q.target_version) × (is_empty q.reason ≡ false)

abbrev KeepsRollback : RollbackFields → Type 0
KeepsRollback r =
    (pos 0 ≤ℤ r.request.base_version)
    × (r.saw_target ≡ true → pos 1 ≤ℤ r.request.target_version)
    × (r.saw_reason ≡ true → is_empty r.request.reason ≡ false)

rollback_field-Holds :
    (key : Bytes) (r : RollbackFields) (s : Bytes)
    → KeepsRollback r
    → Holds KeepsRollback (rollback_field key r s)
unfolding rollback_field
rollback_field-Holds key r s (b, t, e) =
    member-Holds KeepsRollback (bytes_eq key _) _ (parse_int64 s) _ _ _
      (λ v ok. (natural v ok, t, e))
      (member-Holds KeepsRollback (bytes_eq key _) _ (parse_int64 s) _ _ _
        (λ v ok. (b, (λ _. positive v ok), e))
        (member-Holds KeepsRollback (bytes_eq key _) _ (parse_string s) _ _ _
          (λ v ok. (b, t, (λ _. ok))) (other_member-Holds KeepsRollback r s (b, t, e))))

parse_rollback_request-Settled : (body : Bytes) → Settled IsRollback (parse_rollback_request body)
unfolding parse_rollback_request finish_rollback
parse_rollback_request-Settled body =
    parse_body-Settled KeepsRollback IsRollback rollback_field finish_rollback rollback_field-Ends
      rollback_field-Holds
      (λ r. unless_Ends 1 (not r.saw_base) _ _ (
        unless_Ends 1 (not r.saw_target) _ _
          (unless_Ends 1 (not r.saw_reason) _ (parsed r.request []) (omega arith))))
      (λ r (b, t, e). unless_Holds IsRollback (not r.saw_base) _ _ (λ _.
        unless_Holds IsRollback (not r.saw_target) _ _ (λ x.
          unless_Holds IsRollback (not r.saw_reason) _ (parsed r.request [])
            (λ y. (b, t (seen r.saw_target x), e (seen r.saw_reason y))))))
      no_rollback body (omega arith, (λ x. absurd cc), (λ x. absurd cc))

abbrev pub IsRepair : RepairRequest → Type 0
IsRepair q = (pos 1 ≤ℤ q.version) × (is_empty q.reason ≡ false)

abbrev KeepsRepair : RepairFields → Type 0
KeepsRepair r =
    (r.saw_version ≡ true → pos 1 ≤ℤ r.request.version)
    × (r.saw_reason ≡ true → is_empty r.request.reason ≡ false)

repair_field-Holds :
    (key : Bytes) (r : RepairFields) (s : Bytes)
    → KeepsRepair r
    → Holds KeepsRepair (repair_field key r s)
unfolding repair_field
repair_field-Holds key r s (t, e) =
    member-Holds KeepsRepair (bytes_eq key _) _ (parse_int64 s) _ _ _
      (λ v ok. ((λ _. positive v ok), e))
      (member-Holds KeepsRepair (bytes_eq key _) _ (parse_string s) _ _ _ (λ v ok. (t, (λ _. ok)))
        (other_member-Holds KeepsRepair r s (t, e)))

parse_repair_request-Settled : (body : Bytes) → Settled IsRepair (parse_repair_request body)
unfolding parse_repair_request finish_repair
parse_repair_request-Settled body =
    parse_body-Settled KeepsRepair IsRepair repair_field finish_repair repair_field-Ends
      repair_field-Holds
      (λ r.
        unless_Ends 1 (not r.saw_version) _ _
          (unless_Ends 1 (not r.saw_reason) _ (parsed r.request []) (omega arith)))
      (λ r (t, e). unless_Holds IsRepair (not r.saw_version) _ _ (λ x.
        unless_Holds IsRepair (not r.saw_reason) _ (parsed r.request [])
          (λ y. (t (seen r.saw_version x), e (seen r.saw_reason y)))))
      no_repair body ((λ x. absurd cc), (λ x. absurd cc))

-- The two actions, with the words that confirm them.
abbrev IsConfirmed : Bytes → Bytes → Type 0
IsConfirmed action confirmation =
    ((action ≡ codes "restore-version") × (confirmation ≡ codes "RESTORE_VERSION_POINTER"))
    ⊎ ((action ≡ codes "delete-orphan") × (confirmation ≡ codes "DELETE_UNPUBLISHED_ORPHAN"))

abbrev pub IsOrphan : OrphanResolutionRequest → Type 0
IsOrphan q =
    (pos 0 ≤ℤ q.current_version)
    × (pos 1 ≤ℤ q.target_version)
    × (is_empty q.reason ≡ false)
    × IsConfirmed q.action q.confirmation

abbrev KeepsOrphan : OrphanFields → Type 0
KeepsOrphan r =
    (pos 0 ≤ℤ r.request.current_version)
    × (r.saw_target ≡ true → pos 1 ≤ℤ r.request.target_version)
    × (r.saw_reason ≡ true → is_empty r.request.reason ≡ false)
    × (r.saw_action ≡ true → is_no_action r.request.action ≡ false)

orphan_field-Holds :
    (key : Bytes) (r : OrphanFields) (s : Bytes)
    → KeepsOrphan r
    → Holds KeepsOrphan (orphan_field key r s)
unfolding orphan_field
orphan_field-Holds key r s (c, t, e, a) =
    member-Holds KeepsOrphan (bytes_eq key _) _ (parse_int64 s) _ _ _
      (λ v ok. (natural v ok, t, e, a))
      (member-Holds KeepsOrphan (bytes_eq key _) _ (parse_int64 s) _ _ _
        (λ v ok. (c, (λ _. positive v ok), e, a))
        (member-Holds KeepsOrphan (bytes_eq key _) _ (parse_string s) _ _ _
          (λ v ok. (c, t, e, (λ _. ok)))
          (member-Holds KeepsOrphan (bytes_eq key _) _ (parse_string s) _ _ _
            (λ v ok. (c, t, (λ _. ok), a))
            (member-Holds KeepsOrphan (bytes_eq key _) _ (parse_string s) _ _ _
              (λ v ok. (c, t, e, a)) (other_member-Holds KeepsOrphan r s (c, t, e, a))))))

abbrev choice : Bytes → Bool → Bytes
choice action b = if b then codes "RESTORE_VERSION_POINTER" else codes "DELETE_UNPUBLISHED_ORPHAN"

all_seen :
    (a b c d e : Bool)
    → (not a || not b || not c || not d || not e) ≡ false
    → (b ≡ true) × (c ≡ true) × (d ≡ true)
all_seen true true true true true h = (refl, refl, refl)
all_seen true true true true false h = absurd cc
all_seen true true true false e h = absurd cc
all_seen true true false d e h = absurd cc
all_seen true false c d e h = absurd cc
all_seen false b c d e h = absurd cc

confirmed :
    (action confirmation : Bytes)
    → is_no_action action ≡ false
    → not (bytes_eq confirmation (expected_confirmation action)) ≡ false
    → IsConfirmed action confirmation
unfolding expected_confirmation
confirmed action confirmation a c =
    let same = (bytes_eq_iff confirmation (expected_confirmation action)).0 (seen _ c) in
    elim (Bool-cases (bytes_eq action (codes "restore-version"))) [
      | inl e ↦ inl ((bytes_eq_iff action _).0 e, same ∙ ap (choice action) e)
      | inr e ↦ inr (
        (bytes_eq_iff action _).0
            (seen _ (ap (λ b. not b && not (bytes_eq action (codes "delete-orphan"))) (sym e) ∙ a)),
        same ∙ ap (choice action) e,
      )
    ]

abbrev misses : OrphanFields → Bool
misses r =
    not r.saw_current
    || not r.saw_target
    || not r.saw_action
    || not r.saw_reason
    || not r.saw_confirmation

parse_orphan_resolution_request-Settled :
    (body : Bytes) → Settled IsOrphan (parse_orphan_resolution_request body)
unfolding parse_orphan_resolution_request finish_orphan
parse_orphan_resolution_request-Settled body =
    parse_body-Settled KeepsOrphan IsOrphan orphan_field finish_orphan orphan_field-Ends
      orphan_field-Holds
      (λ r. unless_Ends 1 (misses r) _ _ (
        unless_Ends 1
          (not (bytes_eq r.request.confirmation (expected_confirmation r.request.action))) _
          (parsed r.request []) (omega arith)))
      (λ r (c, t, e, a). unless_Holds IsOrphan (misses r) _ _ (λ x.
        let (x0, x1, x2) =
          all_seen r.saw_current r.saw_target r.saw_action r.saw_reason r.saw_confirmation x in
        unless_Holds IsOrphan _ _ (parsed r.request [])
          (λ y. (c, t x0, e x2, confirmed r.request.action r.request.confirmation (a x1) y))))
      no_orphan body (omega arith, (λ x. absurd cc), (λ x. absurd cc), (λ x. absurd cc))

-- None of the readers runs for ever, and what each accepts is one object with nothing behind it but
-- space, that has all the members of the request, and of which the request is what they gave. A save has a
-- base version that is not negative, and files. A rollback has a base version like that, a positive target
-- and a reason; a repair has a positive version and a reason. The resolution of an orphan has versions
-- and a reason like these, and one of the two actions with its own words of confirmation.
pub changes-Settled :
    (body : Bytes)
    → Settled (λ a. IsSave a × IsSaveObject body a) (parse_save_request body)
      × Settled (λ a. IsRollback a × IsRollbackObject body a) (parse_rollback_request body)
      × Settled (λ a. IsRepair a × IsRepairObject body a) (parse_repair_request body)
      × Settled (λ a. IsOrphan a × IsOrphanObject body a) (parse_orphan_resolution_request body)
changes-Settled body = (
  Settled-and IsSave (IsSaveObject body) (parse_save_request body) (parse_save_request-Settled body)
      (parse_save_request-IsSaveObject body),
  Settled-and IsRollback (IsRollbackObject body) (parse_rollback_request body)
      (parse_rollback_request-Settled body) (parse_rollback_request-IsRollbackObject body),
  Settled-and IsRepair (IsRepairObject body) (parse_repair_request body)
      (parse_repair_request-Settled body) (parse_repair_request-IsRepairObject body),
  Settled-and IsOrphan (IsOrphanObject body) (parse_orphan_resolution_request body)
      (parse_orphan_resolution_request-Settled body)
      (parse_orphan_resolution_request-IsOrphanObject body),
)
