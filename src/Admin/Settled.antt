-- ===== src/Admin/Settled.antt =====
-- What comes of a body: an error, or a request for which all checks were made.
use asio_owen.Prelude.{
  ℕ, suc, zero, Bool, true, false, if◌then◌else◌, Option, some, none, Bytes, is_empty, length, ◌≡◌,
  refl, arith,
}
use asio_owen.Admin.Json.{
  Parsed, parsed, refused, unfinished, and_then, or_fail, skip_ws, consume, expect, parse_string,
}
use asio_owen.Admin.Values.{skip_value, object_loop}
use asio_owen.Admin.Json.Ends.{Ends, and_then-Ends, or_fail-Ends, expect-Ends}
use asio_owen.Admin.Values.Ends.{if_Ends, skip_value-Ends, object_loop-Ends}
use asio_owen.Admin.Requests.{checked, other_member, parse_body}

abbrev pub Holds : {A : Type 0} → (A → Type 0) → Parsed A → Type 0
Holds P (parsed a rest) = P a
Holds P (refused error) = Unit
Holds P unfinished = Unit

-- The reader has come to an end, and what it accepts is valid.
abbrev pub Settled : {A : Type 0} → (A → Type 0) → Parsed A → Type 0
Settled P (parsed a rest) = P a
Settled P (refused error) = Unit
Settled P unfinished = ⊥

Settled-both :
    {A : Type 0} (P : A → Type 0) (n : ℕ) (p : Parsed A) → Ends n p → Holds P p → Settled P p
Settled-both P n (parsed a rest) e h = h
Settled-both P n (refused error) e h = tt
Settled-both P n unfinished e h = e

pub and_then-Holds :
    {A B : Type 0} (P : A → Type 0) (Q : B → Type 0) (p : Parsed A) (next : A → Bytes → Parsed B)
    → Holds P p
    → ((a : A) (rest : Bytes) → P a → Holds Q (next a rest))
    → Holds Q (and_then p next)
and_then-Holds P Q (parsed a rest) next h k = k a rest h
and_then-Holds P Q (refused error) next h k = tt
and_then-Holds P Q unfinished next h k = tt

any-Holds : {A : Type 0} (p : Parsed A) → Holds (λ _. Unit) p
any-Holds (parsed a rest) = tt
any-Holds (refused error) = tt
any-Holds unfinished = tt

pub if_Holds :
    {A : Type 0} (P : A → Type 0) (b : Bool) (p q : Parsed A)
    → (b ≡ true → Holds P p)
    → (b ≡ false → Holds P q)
    → Holds P (if b then p else q)
if_Holds P true p q h k = h refl
if_Holds P false p q h k = k refl

pub checked-Ends :
    {A R : Type 0} (n : ℕ) (error : Bytes) (value : Parsed A) (bad : A → Bool) (store : A → R)
    → Ends n value
    → Ends n (checked error value bad store)
unfolding checked
checked-Ends n error value bad store h =
    and_then-Ends n n (or_fail error value) _ (or_fail-Ends n error value h)
      (λ a rest l. if_Ends n (bad a) (refused error) (parsed (store a) rest) tt l)

pub checked-Holds :
    {A R : Type 0} (P : R → Type 0) (error : Bytes) (value : Parsed A) (bad : A → Bool)
    (store : A → R)
    → ((a : A) → bad a ≡ false → P (store a))
    → Holds P (checked error value bad store)
unfolding checked
checked-Holds P error value bad store h =
    and_then-Holds (λ _. Unit) P (or_fail error value) _ (any-Holds (or_fail error value))
      (λ a rest _. if_Holds P (bad a) (refused error) (parsed (store a) rest) (λ _. tt) (h a))

pub other_member-Ends : {R : Type 0} (r : R) (s : Bytes) → Ends (length s) (other_member r s)
unfolding other_member
other_member-Ends r s =
    and_then-Ends (length s) (length s) (or_fail _ (skip_value s)) _
      (or_fail-Ends (length s) _ (skip_value s) (skip_value-Ends s)) (λ _ rest l. l)

pub other_member-Holds :
    {R : Type 0} (P : R → Type 0) (r : R) (s : Bytes) → P r → Holds P (other_member r s)
unfolding other_member
other_member-Holds P r s h =
    and_then-Holds (λ _. Unit) P (or_fail _ (skip_value s)) _ (any-Holds (or_fail _ (skip_value s)))
      (λ _ rest _. h)

consume-Holds :
    {A : Type 0} (P : A → Type 0) (c : ℕ) (s : Bytes) (p : Parsed A) (next : Bytes → Parsed A)
    → Holds P p
    → ((rest : Bytes) → Holds P (next rest))
    → Holds P (elim (consume c s) [ none ↦ p | some rest ↦ next rest ])
consume-Holds P c s p next h k = way (consume c s)
  where
    way : (o : Option Bytes) → Holds P (elim o [ none ↦ p | some rest ↦ next rest ])
    way none = h
    way (some rest) = k rest

-- The loop keeps what each member keeps.
pub object_loop-Holds :
    {R : Type 0} (P : R → Type 0) (fuel : ℕ) (field : Bytes → R → Bytes → Parsed R)
    → ((key : Bytes) (r : R) (s : Bytes) → P r → Holds P (field key r s))
    → (r : R) (s : Bytes) → P r
    → Holds P (object_loop fuel field r s)
unfolding object_loop
object_loop-Holds P zero field f r s h = tt
object_loop-Holds P (suc fuel) field f r s h =
    consume-Holds P b'}' s _ (λ rest. parsed r rest)
      (and_then-Holds (λ _. Unit) P (or_fail _ (parse_string s)) _
        (any-Holds (or_fail _ (parse_string s)))
        (λ key t _.
          and_then-Holds (λ _. Unit) P (expect b':' _ t) _ (any-Holds (expect b':' _ t))
            (λ _ u _. and_then-Holds P P (field key r u) _ (f key r u h) (λ r v kept.
              consume-Holds P b',' v _ (λ rest. object_loop fuel field r rest)
                (and_then-Holds (λ _. Unit) P (expect b'}' _ v) _ (any-Holds (expect b'}' _ v))
                  (λ _ rest _. kept))
                (λ rest. object_loop-Holds P fuel field f r rest kept)))))
      (λ rest. h)

module _ {R A : Type 0} (P : R → Type 0) (V : A → Type 0) (field : Bytes → R → Bytes → Parsed R)
    (finish : R → Parsed A)
    (ends : (key : Bytes) (r : R) (s : Bytes) → Ends (length s) (field key r s))
    (keeps : (key : Bytes) (r : R) (s : Bytes) → P r → Holds P (field key r s))
    (finish-Ends : (r : R) → Ends 1 (finish r))
    (finish-Holds : (r : R) → P r → Holds V (finish r)) where
  pub parse_body-Settled : (r : R) (body : Bytes) → P r → Settled V (parse_body field r finish body)
  unfolding parse_body
  parse_body-Settled r body h =
      Settled-both V 1 (parse_body field r finish body)
        (and_then-Ends (length body) 1 (expect b'{' _ body) _ (expect-Ends b'{' _ body) (λ _ s _.
          and_then-Ends (length s) 1 (object_loop (suc (length s)) field r s) _
            (object_loop-Ends (suc (length s)) field ends r s (omega arith))
            (λ r s _. if_Ends 1 (is_empty (skip_ws s)) (finish r) (refused _) (finish-Ends r) tt)))
        (and_then-Holds (λ _. Unit) V (expect b'{' _ body) _ (any-Holds (expect b'{' _ body))
          (λ _ s _.
            and_then-Holds P V (object_loop (suc (length s)) field r s) _
              (object_loop-Holds P (suc (length s)) field keeps r s h)
              (λ r s kept.
                if_Holds V (is_empty (skip_ws s)) (finish r) (refused _) (λ _. finish-Holds r kept)
                  (λ _. tt))))
