-- ===== src/Admin/Objects.antt =====
-- The objects of the requests to save, roll back, repair, and resolve an orphan.
use asio_owen.Prelude.{
  Bool, true, false, not, ◌||◌, List, [], ◌∷◌, if◌then◌else◌, Bytes, codes, bytes_eq, bytes_eq_iff,
  is_empty, All, ◌≡◌, inl, inr, refl, subst,
}
use asio_owen.Admin.Json.{Parsed, parsed, refused, unfinished, parse_string, parse_int64}
use asio_owen.Admin.Settled.{Holds, Settled, if_Holds, checked-Holds, other_member-Holds}
use asio_owen.Admin.Members.{Flag, Sets, IsObject, parse_body-IsObject, parsed-injective}
use asio_owen.Admin.Changes.{seen}
use asio_owen.Admin.Requests.{
  SaveRequest, checked, any_text, is_negative, is_not_positive, parse_files_array, SaveFields,
  save_field, finish_save, no_save, parse_save_request,
}
use asio_owen.Admin.Versions.{
  RollbackRequest, RepairRequest, OrphanResolutionRequest, RollbackFields, rollback_field,
  finish_rollback, no_rollback, parse_rollback_request, RepairFields, repair_field, finish_repair,
  no_repair, parse_repair_request, OrphanFields, is_no_action, orphan_field, expected_confirmation,
  finish_orphan, no_orphan, parse_orphan_resolution_request,
}

pub Settled-and :
    {A : Type 0} (P Q : A → Type 0) (p : Parsed A)
    → Settled P p
    → ((a : A) (rest : Bytes) → p ≡ parsed a rest → Q a)
    → Settled (λ a. P a × Q a) p
Settled-and P Q (parsed a rest) h k = (h, k a rest refl)
Settled-and P Q (refused e) h k = tt
Settled-and P Q unfinished h k = h

Holds-eq :
    {A : Type 0} (P : A → Type 0) (p : Parsed A) {a : A} {rest : Bytes}
    → Holds P p
    → p ≡ parsed a rest
    → P a
Holds-eq P p h e = subst (Holds P) e h

named_member :
    {A R : Type 0} (P : R → Type 0) (key name error : Bytes) (value : Parsed A) (bad : A → Bool)
    (store : A → R) (other : Parsed R)
    → ((a : A) → key ≡ name → P (store a))
    → Holds P other
    → Holds P (if bytes_eq key name then checked error value bad store else other)
named_member P key name error value bad store other h k =
    if_Holds P (bytes_eq key name) (checked error value bad store) other
      (λ e. checked-Holds P error value bad store (λ a _. h a ((bytes_eq_iff key name).0 e)))
      (λ _. k)

refuse-eq :
    {A : Type 0} (b : Bool) (e : Bytes) (p : Parsed A) {a : A} {rest : Bytes}
    → (if b then refused e else p) ≡ parsed a rest
    → (b ≡ false) × (p ≡ parsed a rest)
refuse-eq true e p h = cc
refuse-eq false e p h = (refl, h)

abbrev pub save_flags : List (Flag SaveFields)
save_flags =
    ((λ r. r.saw_base_version), codes "base_version") ∷ ((λ r. r.saw_files), codes "files") ∷ []

save_field-Sets :
    (key : Bytes) (r : SaveFields) (s : Bytes) (q : SaveFields) (v : Bytes)
    → save_field key r s ≡ parsed q v
    → All (λ f. Sets f key r q) save_flags
unfolding save_field
save_field-Sets key r s q v e =
    let P : SaveFields → Type 0 = λ q. All (λ f. Sets f key r q) save_flags in
    Holds-eq P (save_field key r s)
      (named_member P key (codes "base_version") _ (parse_int64 s) is_negative _ _
        (λ a n. ((λ _. inr n), ((λ x. inl x), tt)))
        (named_member P key (codes "reason") _ (parse_string s) any_text _ _
          (λ a n. ((λ x. inl x), ((λ x. inl x), tt)))
          (named_member P key (codes "files") _ (parse_files_array s) (λ _. false) _ _
            (λ a n. ((λ x. inl x), ((λ _. inr n), tt)))
            (other_member-Holds P r s ((λ x. inl x), ((λ x. inl x), tt))))))
      e

save_done :
    (q : SaveFields) (a : SaveRequest) (rest : Bytes)
    → finish_save q ≡ parsed a rest
    → (q.request ≡ a) × All (λ f. f.0 q ≡ true) save_flags
unfolding finish_save
save_done q a rest h =
    let (x, h1) = refuse-eq (not q.saw_base_version) _ _ h in
    let (y, h2) = refuse-eq (not q.saw_files) _ _ h1 in
    ((parsed-injective h2).0, (seen q.saw_base_version x, (seen q.saw_files y, tt)))

abbrev pub IsSaveObject : Bytes → SaveRequest → Type 0
IsSaveObject =
    IsObject save_field no_save (λ r. r.request) (codes "base_version" ∷ codes "files" ∷ [])

pub parse_save_request-IsSaveObject :
    (body : Bytes) (a : SaveRequest) (rest : Bytes)
    → parse_save_request body ≡ parsed a rest
    → IsSaveObject body a
unfolding parse_save_request
parse_save_request-IsSaveObject body a rest h =
    parse_body-IsObject save_field (λ r. r.request) finish_save save_flags no_save save_field-Sets
      (refl, (refl, tt)) save_done body a rest h

abbrev rollback_flags : List (Flag RollbackFields)
rollback_flags =
    ((λ r. r.saw_base), codes "base_version")
    ∷ ((λ r. r.saw_target), codes "target_version")
    ∷ ((λ r. r.saw_reason), codes "reason")
    ∷ []

rollback_field-Sets :
    (key : Bytes) (r : RollbackFields) (s : Bytes) (q : RollbackFields) (v : Bytes)
    → rollback_field key r s ≡ parsed q v
    → All (λ f. Sets f key r q) rollback_flags
unfolding rollback_field
rollback_field-Sets key r s q v e =
    let P : RollbackFields → Type 0 = λ q. All (λ f. Sets f key r q) rollback_flags in
    Holds-eq P (rollback_field key r s)
      (named_member P key (codes "base_version") _ (parse_int64 s) is_negative _ _
        (λ a n. ((λ _. inr n), ((λ x. inl x), ((λ x. inl x), tt))))
        (named_member P key (codes "target_version") _ (parse_int64 s) is_not_positive _ _
          (λ a n. ((λ x. inl x), ((λ _. inr n), ((λ x. inl x), tt))))
          (named_member P key (codes "reason") _ (parse_string s) is_empty _ _
            (λ a n. ((λ x. inl x), ((λ x. inl x), ((λ _. inr n), tt))))
            (other_member-Holds P r s ((λ x. inl x), ((λ x. inl x), ((λ x. inl x), tt)))))))
      e

rollback_done :
    (q : RollbackFields) (a : RollbackRequest) (rest : Bytes)
    → finish_rollback q ≡ parsed a rest
    → (q.request ≡ a) × All (λ f. f.0 q ≡ true) rollback_flags
unfolding finish_rollback
rollback_done q a rest h =
    let (x, h1) = refuse-eq (not q.saw_base) _ _ h in
    let (y, h2) = refuse-eq (not q.saw_target) _ _ h1 in
    let (z, h3) = refuse-eq (not q.saw_reason) _ _ h2 in
    ((parsed-injective h3).0, (seen q.saw_base x, (seen q.saw_target y, (seen q.saw_reason z, tt))))

abbrev pub IsRollbackObject : Bytes → RollbackRequest → Type 0
IsRollbackObject =
    IsObject rollback_field no_rollback (λ r. r.request)
      (codes "base_version" ∷ codes "target_version" ∷ codes "reason" ∷ [])

pub parse_rollback_request-IsRollbackObject :
    (body : Bytes) (a : RollbackRequest) (rest : Bytes)
    → parse_rollback_request body ≡ parsed a rest
    → IsRollbackObject body a
unfolding parse_rollback_request
parse_rollback_request-IsRollbackObject body a rest h =
    parse_body-IsObject rollback_field (λ r. r.request) finish_rollback rollback_flags no_rollback
      rollback_field-Sets (refl, (refl, (refl, tt))) rollback_done body a rest h

abbrev repair_flags : List (Flag RepairFields)
repair_flags = ((λ r. r.saw_version), codes "version") ∷ ((λ r. r.saw_reason), codes "reason") ∷ []

repair_field-Sets :
    (key : Bytes) (r : RepairFields) (s : Bytes) (q : RepairFields) (v : Bytes)
    → repair_field key r s ≡ parsed q v
    → All (λ f. Sets f key r q) repair_flags
unfolding repair_field
repair_field-Sets key r s q v e =
    let P : RepairFields → Type 0 = λ q. All (λ f. Sets f key r q) repair_flags in
    Holds-eq P (repair_field key r s)
      (named_member P key (codes "version") _ (parse_int64 s) is_not_positive _ _
        (λ a n. ((λ _. inr n), ((λ x. inl x), tt)))
        (named_member P key (codes "reason") _ (parse_string s) is_empty _ _
          (λ a n. ((λ x. inl x), ((λ _. inr n), tt)))
          (other_member-Holds P r s ((λ x. inl x), ((λ x. inl x), tt)))))
      e

repair_done :
    (q : RepairFields) (a : RepairRequest) (rest : Bytes)
    → finish_repair q ≡ parsed a rest
    → (q.request ≡ a) × All (λ f. f.0 q ≡ true) repair_flags
unfolding finish_repair
repair_done q a rest h =
    let (x, h1) = refuse-eq (not q.saw_version) _ _ h in
    let (y, h2) = refuse-eq (not q.saw_reason) _ _ h1 in
    ((parsed-injective h2).0, (seen q.saw_version x, (seen q.saw_reason y, tt)))

abbrev pub IsRepairObject : Bytes → RepairRequest → Type 0
IsRepairObject =
    IsObject repair_field no_repair (λ r. r.request) (codes "version" ∷ codes "reason" ∷ [])

pub parse_repair_request-IsRepairObject :
    (body : Bytes) (a : RepairRequest) (rest : Bytes)
    → parse_repair_request body ≡ parsed a rest
    → IsRepairObject body a
unfolding parse_repair_request
parse_repair_request-IsRepairObject body a rest h =
    parse_body-IsObject repair_field (λ r. r.request) finish_repair repair_flags no_repair
      repair_field-Sets (refl, (refl, tt)) repair_done body a rest h

abbrev orphan_flags : List (Flag OrphanFields)
orphan_flags =
    ((λ r. r.saw_current), codes "current_version")
    ∷ ((λ r. r.saw_target), codes "target_version")
    ∷ ((λ r. r.saw_action), codes "action")
    ∷ ((λ r. r.saw_reason), codes "reason")
    ∷ ((λ r. r.saw_confirmation), codes "confirmation")
    ∷ []

orphan_field-Sets :
    (key : Bytes) (r : OrphanFields) (s : Bytes) (q : OrphanFields) (v : Bytes)
    → orphan_field key r s ≡ parsed q v
    → All (λ f. Sets f key r q) orphan_flags
unfolding orphan_field
orphan_field-Sets key r s q v e =
    let P : OrphanFields → Type 0 = λ q. All (λ f. Sets f key r q) orphan_flags in
    Holds-eq P (orphan_field key r s)
      (named_member P key (codes "current_version") _ (parse_int64 s) is_negative _ _
        (λ a n. ((λ _. inr n), ((λ x. inl x), ((λ x. inl x), ((λ x. inl x), ((λ x. inl x), tt))))))
        (named_member P key (codes "target_version") _ (parse_int64 s) is_not_positive _ _
          (λ a n.
            ((λ x. inl x), ((λ _. inr n), ((λ x. inl x), ((λ x. inl x), ((λ x. inl x), tt))))))
          (named_member P key (codes "action") _ (parse_string s) is_no_action _ _
            (λ a n.
              ((λ x. inl x), ((λ x. inl x), ((λ _. inr n), ((λ x. inl x), ((λ x. inl x), tt))))))
            (named_member P key (codes "reason") _ (parse_string s) is_empty _ _
              (λ a n.
                ((λ x. inl x), ((λ x. inl x), ((λ x. inl x), ((λ _. inr n), ((λ x. inl x), tt))))))
              (named_member P key (codes "confirmation") _ (parse_string s) is_empty _ _
                (λ a n. (
                  (λ x. inl x),
                  ((λ x. inl x), ((λ x. inl x), ((λ x. inl x), ((λ _. inr n), tt)))),
                ))
                (other_member-Holds P r s (
                  (λ x. inl x),
                  ((λ x. inl x), ((λ x. inl x), ((λ x. inl x), ((λ x. inl x), tt)))),
                )))))))
      e

all_five :
    (a b c d e : Bool)
    → (not a || not b || not c || not d || not e) ≡ false
    → (a ≡ true) × (b ≡ true) × (c ≡ true) × (d ≡ true) × (e ≡ true)
all_five true true true true true h = (refl, refl, refl, refl, refl)
all_five true true true true false h = cc
all_five true true true false e h = cc
all_five true true false d e h = cc
all_five true false c d e h = cc
all_five false b c d e h = cc

orphan_done :
    (q : OrphanFields) (a : OrphanResolutionRequest) (rest : Bytes)
    → finish_orphan q ≡ parsed a rest
    → (q.request ≡ a) × All (λ f. f.0 q ≡ true) orphan_flags
unfolding finish_orphan
orphan_done q a rest h =
    let (x, h1) =
      refuse-eq
        (not q.saw_current
          || not q.saw_target
          || not q.saw_action
          || not q.saw_reason
          || not q.saw_confirmation)
        _ _ h in
    let (_, h2) =
      refuse-eq (not (bytes_eq q.request.confirmation (expected_confirmation q.request.action))) _ _
        h1 in
    let (s, t, u, v, w) =
      all_five q.saw_current q.saw_target q.saw_action q.saw_reason q.saw_confirmation x in
    ((parsed-injective h2).0, (s, (t, (u, (v, (w, tt))))))

abbrev pub IsOrphanObject : Bytes → OrphanResolutionRequest → Type 0
IsOrphanObject =
    IsObject orphan_field no_orphan (λ r. r.request)
      (codes "current_version"
        ∷ codes "target_version"
        ∷ codes "action"
        ∷ codes "reason"
        ∷ codes "confirmation"
        ∷ [])

pub parse_orphan_resolution_request-IsOrphanObject :
    (body : Bytes) (a : OrphanResolutionRequest) (rest : Bytes)
    → parse_orphan_resolution_request body ≡ parsed a rest
    → IsOrphanObject body a
unfolding parse_orphan_resolution_request
parse_orphan_resolution_request-IsOrphanObject body a rest h =
    parse_body-IsObject orphan_field (λ r. r.request) finish_orphan orphan_flags no_orphan
      orphan_field-Sets (refl, (refl, (refl, (refl, (refl, tt))))) orphan_done body a rest h
