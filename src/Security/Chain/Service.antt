-- ===== src/Security/Chain/Service.antt =====
-- The service that a path names.
use asio_owen.Prelude.{
  ℕ, true, false, not, ◌==◌, [], ◌∷◌, ◌++◌, Bytes, any, has_byte, before_byte, ◌≡◌, ◌≢◌, ◌↔◌, inl,
  inr, subst, refl, sym, arith, Bool-cases,
}
use asio_owen.Security.Chain.{is_service_byte, is_valid_service_name, extract_service}

-- The end of the path, or the slash behind a segment.
abbrev pub EndsSegment : Bytes → Type 0
EndsSegment [] = Unit
EndsSegment (c ∷ rest) = c ≡ b'/'

before_byte_rest :
    (s : Bytes) → (rest : Bytes) × (s ≡ before_byte b'/' s ++ rest) × EndsSegment rest
unfolding before_byte
before_byte_rest [] = ([], refl, tt)
before_byte_rest (c ∷ s) =
    let (rest, e, m) = before_byte_rest s in
    elim (Bool-cases (c == b'/')) [
      | inl k ↦ (c ∷ s, ground arith, ground arith)
      | inr k ↦ (rest, ground (arith, e), m)
    ]

before_byte-append :
    (s rest : Bytes) → has_byte b'/' s ≡ false → EndsSegment rest → before_byte b'/' (s ++ rest) ≡ s
unfolding before_byte has_byte
before_byte-append [] [] h m = refl
before_byte-append [] (c ∷ rest) h m = ground arith
before_byte-append (c ∷ s) rest h m = ground (arith, before_byte-append s rest)

no_slash : (s : Bytes) → any (λ d. not (is_service_byte d)) s ≡ false → has_byte b'/' s ≡ false
unfolding has_byte is_service_byte
no_slash [] h = refl
no_slash (c ∷ s) h = ground (arith, no_slash s)

is_valid_service_name-no_slash :
    (s : Bytes) → is_valid_service_name s ≡ true → has_byte b'/' s ≡ false
unfolding is_valid_service_name has_byte
is_valid_service_name-no_slash [] h = refl
is_valid_service_name-no_slash (c ∷ s) h = ground (arith, no_slash s)

abbrev IsFirst : Bytes → Bytes → Type 0
IsFirst path svc = (rest : Bytes) × (path ≡ b'/' ∷ svc ++ rest) × EndsSegment rest

extract_service-IsFirst :
    (c : ℕ) (s svc : Bytes)
    → svc ≢ []
    → extract_service (c ∷ s) ≡ svc
    → (is_valid_service_name svc ≡ true) × IsFirst (c ∷ s) svc
unfolding extract_service
extract_service-IsFirst c s svc n h = elim (Bool-cases (c == b'/')) [
  | inr k ↦ absurd (n (sym (rw k at h)))
  | inl k ↦ elim (Bool-cases (is_valid_service_name (before_byte b'/' s))) [
    | inr v ↦ absurd (n (sym (rw (k, v) at h)))
    | inl v ↦
        let (rest, e, m) = before_byte_rest s in
        let same : before_byte b'/' s ≡ svc = rw (k, v) at h in
        (rw (← same) v, (rest, ground (arith, e, same), m))
  ]
]

extract_service_known :
    (svc rest : Bytes)
    → is_valid_service_name svc ≡ true
    → before_byte b'/' (svc ++ rest) ≡ svc
    → extract_service (b'/' ∷ svc ++ rest) ≡ svc
unfolding extract_service
extract_service_known svc rest v e = ground (arith, e, v)

no_rest : (svc rest : Bytes) → ◌≡◌ {A = Bytes} [] (b'/' ∷ svc ++ rest) → ⊥
no_rest svc rest e = cc

-- A path names a service exactly if the service's name is valid and is the first segment.
extract_service_iff :
    (path svc : Bytes)
    → svc ≢ []
    → (extract_service path ≡ svc) ↔ (
        (is_valid_service_name svc ≡ true)
        × ((rest : Bytes) × (path ≡ b'/' ∷ svc ++ rest) × EndsSegment rest))
unfolding extract_service
extract_service_iff [] svc n = ((λ e. absurd (n (sym e))), λ h. absurd (no_rest svc h.1.0 h.1.1))
extract_service_iff (c ∷ s) svc n = (extract_service-IsFirst c s svc n, from)
  where
    from : (is_valid_service_name svc ≡ true) × IsFirst (c ∷ s) svc → extract_service (c ∷ s) ≡ svc
    from (v, (rest, e, m)) =
        let short = before_byte-append svc rest (is_valid_service_name-no_slash svc v) m in
        subst (λ p. extract_service p ≡ svc) (sym e) (extract_service_known svc rest v short)
