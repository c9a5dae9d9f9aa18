-- ===== src/Admin/Members.antt =====
-- A body that is accepted is one object, with the members that the request needs.
use asio_owen.Prelude.{
  ℕ, suc, zero, Bool, true, false, List, [], ◌∷◌, if◌then◌else◌, Option, some, none, Bytes,
  is_empty, length, map, In, here, there, All, ◌≡◌, ◌⊎◌, inl, inr, refl, sym, ap, subst, ◌∙◌,
}
use asio_owen.Admin.Json.{
  Parsed, parsed, refused, unfinished, and_then, or_fail, skip_ws, consume, expect, parse_string,
}
use asio_owen.Admin.Values.{object_loop}
use asio_owen.Admin.Requests.{parse_body}

-- Members that are read one after another, with a comma between them and perhaps behind the last, up
-- to the brace that closes the object: from a text, by way of the keys, to what was gathered and to
-- the text behind the brace.
pub data Members {R : Type 0} (field : Bytes → R → Bytes → Parsed R)
    : R → Bytes → List Bytes → R → Bytes → Type 0 where
  closed : {r : R} {s rest : Bytes} → consume b'}' s ≡ some rest → Members field r s [] r rest
  last :
      {r q : R} {s t u v rest key : Bytes}
      → parse_string s ≡ parsed key t
      → consume b':' t ≡ some u
      → field key r u ≡ parsed q v
      → consume b'}' v ≡ some rest
      → Members field r s (key ∷ []) q rest
  more :
      {r q z : R} {s t u v w rest key : Bytes} {keys : List Bytes}
      → parse_string s ≡ parsed key t
      → consume b':' t ≡ some u
      → field key r u ≡ parsed q v
      → consume b',' v ≡ some w
      → Members field q w keys z rest
      → Members field r s (key ∷ keys) z rest

and_then-eq :
    {A B : Type 0} (p : Parsed A) (next : A → Bytes → Parsed B) {b : B} {rest : Bytes}
    → and_then p next ≡ parsed b rest
    → (a : A) × (s : Bytes) × (p ≡ parsed a s) × (next a s ≡ parsed b rest)
and_then-eq (parsed a s) next h = (a, s, refl, h)
and_then-eq (refused e) next h = cc
and_then-eq unfinished next h = cc

or_fail-eq :
    {A : Type 0} (e : Bytes) (p : Parsed A) {a : A} {s : Bytes}
    → or_fail e p ≡ parsed a s
    → p ≡ parsed a s
or_fail-eq e (parsed a s) h = h
or_fail-eq e (refused f) h = cc
or_fail-eq e unfinished h = cc

-- Whether a character is there.
consume-way :
    {A : Type 0} (c : ℕ) (s : Bytes) (p : Parsed A) (next : Bytes → Parsed A) {a : A} {rest : Bytes}
    → elim (consume c s) [ none ↦ p | some t ↦ next t ] ≡ parsed a rest
    → (p ≡ parsed a rest) ⊎ ((t : Bytes) × (consume c s ≡ some t) × (next t ≡ parsed a rest))
consume-way c s p next {a} {rest} h = way (consume c s) refl h
  where
    way :
        (o : Option Bytes)
        → consume c s ≡ o
        → elim o [ none ↦ p | some t ↦ next t ] ≡ parsed a rest
        → (p ≡ parsed a rest) ⊎ ((t : Bytes) × (consume c s ≡ some t) × (next t ≡ parsed a rest))
    way none e k = inl k
    way (some t) e k = inr (t, e, k)

expect-eq :
    (c : ℕ) (e s : Bytes) {t : Bytes} {x : Unit} → expect c e s ≡ parsed x t → consume c s ≡ some t
unfolding expect
expect-eq c e s {t} {x} h = way (consume c s) refl h
  where
    way :
        (o : Option Bytes)
        → consume c s ≡ o
        → elim o [ none ↦ refused e | some r ↦ parsed tt r ] ≡ parsed x t
        → consume c s ≡ some t
    way none f k = cc
    way (some r) f k = f ∙ cc

pub parsed-injective :
    {A : Type 0} {a b : A} {s t : Bytes} → parsed a s ≡ parsed b t → (a ≡ b) × (s ≡ t)
parsed-injective {a = a} {s = s} h = (ap (value a) h, ap (behind s) h)
  where
    value : {A : Type 0} → A → Parsed A → A
    value a (parsed b t) = b
    value a (refused e) = a
    value a unfinished = a

    behind : {A : Type 0} → Bytes → Parsed A → Bytes
    behind s (parsed b t) = t
    behind s (refused e) = s
    behind s unfinished = s

object_loop-Members :
    {R : Type 0} (fuel : ℕ) (field : Bytes → R → Bytes → Parsed R) (r : R) (s : Bytes) {q : R}
    {rest : Bytes}
    → object_loop fuel field r s ≡ parsed q rest
    → (keys : List Bytes) × Members field r s keys q rest
unfolding object_loop
object_loop-Members zero field r s h = cc
object_loop-Members (suc fuel) field r s {q} {rest} h =
    elim (consume-way b'}' s _ (λ t. parsed r t) h) [
      | inr (t, e, k) ↦
          let (same, behind) = parsed-injective k in
          ([], subst (λ z. Members field r s [] z rest) same (closed (e ∙ ap some behind)))
      | inl k ↦
          let (key, t, e, k1) = and_then-eq (or_fail _ (parse_string s)) _ k in
          let (_, u, f, k2) = and_then-eq (expect b':' _ t) _ k1 in
          let (z, v, g, k3) = and_then-eq (field key r u) _ k2 in
          let key_read = or_fail-eq _ (parse_string s) e in
          let colon = expect-eq b':' _ t f in
          elim (consume-way b',' v _ (λ w. object_loop fuel field z w) k3) [
            | inr (w, c, k4) ↦
                let (keys, members) = object_loop-Members fuel field z w k4 in
                (key ∷ keys, more key_read colon g c members)
            | inl k4 ↦
                let (_, w, c, k5) = and_then-eq (expect b'}' _ v) _ k4 in
                let (same, behind) = parsed-injective k5 in
                (
                  key ∷ [],
                  subst (λ z. Members field r s (key ∷ []) z rest) same
                      (last key_read colon g (expect-eq b'}' _ v c ∙ ap some behind)),
                )
          ]
    ]

-- One object, with nothing behind it but space, that has members with these names. What was gathered
-- from its members, the last one counting where a name stands twice, is the request.
abbrev pub IsObject :
    {R A : Type 0} → (Bytes → R → Bytes → Parsed R) → R → (R → A) → List Bytes → Bytes → A → Type 0
IsObject {R = R} field r request names body a =
    (inside : Bytes) × (keys : List Bytes) × (q : R) × (rest : Bytes) × (consume b'{' body
      ≡ some inside)
    × Members field r inside keys q rest
    × (skip_ws rest ≡ [])
    × (request q ≡ a)
    × All (λ name. In name keys) names

is_empty-nil : (s : Bytes) → is_empty s ≡ true → s ≡ []
is_empty-nil [] h = refl
is_empty-nil (c ∷ s) h = cc

unless-eq :
    {A : Type 0} (b : Bool) (p : Parsed A) (e : Bytes) {a : A} {rest : Bytes}
    → (if b then p else refused e) ≡ parsed a rest
    → (b ≡ true) × (p ≡ parsed a rest)
unless-eq true p e h = (refl, h)
unless-eq false p e h = cc

-- The name of a member that sets a flag.
abbrev pub Flag : Type 0 → Type 0
Flag R = (R → Bool) × Bytes

-- A member sets a flag only if it has its name.
abbrev pub Sets : {R : Type 0} → Flag R → Bytes → R → R → Type 0
Sets f key r q = f.0 q ≡ true → (f.0 r ≡ true) ⊎ (key ≡ f.1)

false-true : false ≡ true → ⊥
false-true h = cc

not_first : {A : Type 0} {b : Bool} → b ≡ false → (b ≡ true) ⊎ A → A
not_first e (inl h) = absurd (false-true (sym e ∙ h))
not_first e (inr a) = a

module _ {R : Type 0} (field : Bytes → R → Bytes → Parsed R) where
  Members-flag :
      (f : Flag R)
      → ((key : Bytes) (r : R) (s : Bytes) (q : R) (v : Bytes)
          → field key r s ≡ parsed q v
          → Sets f key r q)
      → {r q : R} {s rest : Bytes} {keys : List Bytes} → Members field r s keys q rest
      → f.0 q ≡ true
      → (f.0 r ≡ true) ⊎ In f.1 keys
  Members-flag f step (closed e) h = inl h
  Members-flag f step (last {r} {q} {s} {t} {u} {v} {rest} {key} e g k l) h =
      elim (step key r u q v k h) [ inl a ↦ inl a | inr a ↦ inr (here (sym a)) ]
  Members-flag f step (more {r} {q} {z} {s} {t} {u} {v} {w} {rest} {key} e g k l m) h =
      elim (Members-flag f step m h) [
        | inr i ↦ inr (there i)
        | inl a ↦ elim (step key r u q v k a) [ inl b ↦ inl b | inr b ↦ inr (here (sym b)) ]
      ]

  all_named :
      (flags : List (Flag R)) {r q : R} {s rest : Bytes} {keys : List Bytes}
      → ((key : Bytes) (r : R) (s : Bytes) (q : R) (v : Bytes)
          → field key r s ≡ parsed q v
          → All (λ f. Sets f key r q) flags)
      → All (λ f. f.0 r ≡ false) flags
      → Members field r s keys q rest
      → All (λ f. f.0 q ≡ true) flags
      → All (λ name. In name keys) (map (λ f. f.1) flags)
  all_named [] step fresh m set = tt
  all_named (f ∷ flags) step fresh m set = (
    not_first fresh.0 (Members-flag f (λ key r s q v e. (step key r s q v e).0) m set.0),
    all_named flags (λ key r s q v e. (step key r s q v e).1) fresh.1 m set.1,
  )

module _ {R A : Type 0} (field : Bytes → R → Bytes → Parsed R) (request : R → A)
    (finish : R → Parsed A) (flags : List (Flag R)) (first : R)
    (sets : (key : Bytes) (r : R) (s : Bytes) (q : R) (v : Bytes)
      → field key r s ≡ parsed q v
      → All (λ f. Sets f key r q) flags)
    (fresh : All (λ f. f.0 first ≡ false) flags)
    (done : (q : R) (a : A) (rest : Bytes)
      → finish q ≡ parsed a rest
      → (request q ≡ a) × All (λ f. f.0 q ≡ true) flags) where
  pub parse_body-IsObject :
      (body : Bytes) (a : A) (rest : Bytes)
      → parse_body field first finish body ≡ parsed a rest
      → IsObject field first request (map (λ f. f.1) flags) body a
  unfolding parse_body
  parse_body-IsObject body a rest h =
      let (_, inside, e, h1) = and_then-eq (expect b'{' _ body) _ h in
      let (q, behind, g, h2) =
        and_then-eq (object_loop (suc (length inside)) field first inside) _ h1 in
      let (empty, h3) = unless-eq (is_empty (skip_ws behind)) (finish q) _ h2 in
      let (keys, members) = object_loop-Members (suc (length inside)) field first inside g in
      let (same, set) = done q a rest h3 in
      (
        inside,
        keys,
        q,
        behind,
        expect-eq b'{' _ body e,
        members,
        is_empty-nil (skip_ws behind) empty,
        same,
        all_named field flags sets fresh members set,
      )
