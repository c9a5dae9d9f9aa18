-- ===== src/Security/Path/Normal.antt =====
-- The form of a normalized path: a slash, and clean segments with single slashes between them.
use asio_owen.Prelude.{
  ℕ, Bool, true, false, ◌||◌, List, [], ◌∷◌, ◌++◌, ◌==◌, if◌then◌else◌, ◌≡◌, refl, ap, ◌∙◌, arith,
  Bytes, All, All-append, has_byte, has_byte-append, codes, bytes_eq, before_byte, lower,
  lower_twice, to_lower_byte, is_empty, map, Outcome, ok, >>=-eq-ok, Bool-cases, inl, inr, ◌⊎◌,
}
use asio_owen.Security.Path.{
  PathError, percent_decode, push_segment, pop_segment, split_segments, join_onto, assemble,
  normalize_path,
}
use asio_owen.Security.Path.Decode.{IsSafe, percent_decode-IsSafe}

-- The bytes of a decoded path: no NUL, no backslash, no percent sign.
abbrev pub IsPlain : ℕ → Type 0
IsPlain c = (c == 0 || c == b'\\' || c == b'%') ≡ false

-- A segment that stands for itself: not empty, no slash inside, not a dot segment.
pub record IsClean (seg : Bytes) : Type 0 where
  pub nonempty : is_empty seg ≡ false
  pub no_slash : has_byte b'/' seg ≡ false
  pub no_dot : bytes_eq seg (codes ".") ≡ false
  pub no_parent : bytes_eq seg (codes "..") ≡ false
  pub plain : All IsPlain seg

IsPlain-decoded : (s : Bytes) → IsSafe s → has_byte b'%' s ≡ false → All IsPlain s
unfolding has_byte
IsPlain-decoded [] h n = tt
IsPlain-decoded (c ∷ s) h n = (ground arith, IsPlain-decoded s h.1 (ground arith))

pop_segment-IsClean : (stack : List Bytes) → All IsClean stack → All IsClean (pop_segment stack)
unfolding pop_segment
pop_segment-IsClean [] h = tt
pop_segment-IsClean (s ∷ stack) h = h.1

push_segment-IsClean :
    (seg : Bytes) (stack : List Bytes)
    → has_byte b'/' seg ≡ false
    → All IsPlain seg
    → All IsClean stack
    → All IsClean (push_segment seg stack)
unfolding push_segment
push_segment-IsClean seg stack n p h =
    elim (Bool-cases (is_empty seg || bytes_eq seg (codes "."))) [
      | inl e ↦ rw e h
      | inr e ↦ rw e (elim (Bool-cases (bytes_eq seg (codes ".."))) [
        | inl e' ↦ rw e' (pop_segment-IsClean stack h)
        | inr e' ↦ rw e' (
          record {
            nonempty = ground arith;
            no_slash = n;
            no_dot = ground arith;
            no_parent = e';
            plain = p;
          },
          h,
        )
      ])
    ]

split_segments-IsClean :
    (s seg : Bytes) (stack : List Bytes)
    → has_byte b'/' seg ≡ false
    → All IsPlain seg
    → All IsPlain s
    → All IsClean stack
    → All IsClean (split_segments seg stack s)
unfolding split_segments
split_segments-IsClean [] seg stack n p q h = push_segment-IsClean seg stack n p h
split_segments-IsClean (c ∷ s) seg stack n p q h = elim (Bool-cases (c == b'/')) [
  | inl e ↦ rw e (
      split_segments-IsClean s [] (push_segment seg stack) (unfold has_byte in refl) tt q.1
        (push_segment-IsClean seg stack n p h))
  | inr e ↦ rw e (
      split_segments-IsClean s (seg ++ c ∷ []) stack
        (has_byte-append b'/' seg (c ∷ []) ∙ unfold has_byte in ground arith)
        (All-append IsPlain seg (c ∷ []) p (q.0, tt)) q.1 h)
]

lower-IsPlain : (s : Bytes) → All IsPlain s → All IsPlain (lower s)
unfolding lower to_lower_byte
lower-IsPlain [] h = tt
lower-IsPlain (c ∷ s) h = (ground arith, lower-IsPlain s h.1)

has_byte-lower : (s : Bytes) → has_byte b'/' (lower s) ≡ has_byte b'/' s
unfolding lower to_lower_byte has_byte
has_byte-lower [] = refl
has_byte-lower (c ∷ s) = ground (arith, has_byte-lower s)

bytes_eq-lower_dots :
    (s : Bytes)
    → (bytes_eq (lower s) (codes ".") ≡ bytes_eq s (codes "."))
      × (bytes_eq (lower s) (codes "..") ≡ bytes_eq s (codes ".."))
      × (is_empty (lower s) ≡ is_empty s)
unfolding lower to_lower_byte bytes_eq
bytes_eq-lower_dots [] = ground arith
bytes_eq-lower_dots (c ∷ []) = ground arith
bytes_eq-lower_dots (c ∷ d ∷ []) = ground arith
bytes_eq-lower_dots (c ∷ d ∷ e ∷ s) = ground arith

lower-IsClean : (s : Bytes) → IsClean s → IsClean (lower s)
lower-IsClean s h =
    let (a, b, c) = bytes_eq-lower_dots s in
    record {
      nonempty = c ∙ h.nonempty;
      no_slash = has_byte-lower s ∙ h.no_slash;
      no_dot = a ∙ h.no_dot;
      no_parent = b ∙ h.no_parent;
      plain = lower-IsPlain s h.plain;
    }

map-lower-IsClean : (stack : List Bytes) → All IsClean stack → All IsClean (map lower stack)
map-lower-IsClean [] h = tt
map-lower-IsClean (s ∷ stack) h = (lower-IsClean s h.0, map-lower-IsClean stack h.1)

pub lower-append : (s t : Bytes) → lower (s ++ t) ≡ lower s ++ lower t
unfolding lower
lower-append [] t = refl
lower-append (c ∷ s) t = ground (arith, lower-append s t)

pub slash_lower : (s : Bytes) → lower (b'/' ∷ s) ≡ b'/' ∷ lower s
unfolding lower to_lower_byte
slash_lower s = refl

pub lower-join_onto :
    (stack : List Bytes) (out : Bytes)
    → lower (join_onto stack out) ≡ join_onto (map lower stack) (lower out)
unfolding join_onto
lower-join_onto [] out = refl
lower-join_onto (s ∷ []) out = lower-append s out
lower-join_onto (s ∷ t ∷ stack) out =
    lower-join_onto (t ∷ stack) (b'/' ∷ (s ++ out))
    ∙ ap (λ r. join_onto (map lower (t ∷ stack)) r) slash
  where
    slash : lower (b'/' ∷ (s ++ out)) ≡ b'/' ∷ (lower s ++ lower out)
    slash = slash_lower (s ++ out) ∙ ap (λ r. b'/' ∷ r) (lower-append s out)

-- The path that the segments of a stack spell, its back first.
abbrev pub slash_path : List Bytes → Bytes
slash_path stack = b'/' ∷ join_onto stack []

assemble-slash_path :
    (case_sensitive : Bool) (stack : List Bytes)
    → All IsClean stack
    → (segs : List Bytes) × All IsClean segs × (assemble case_sensitive stack ≡ slash_path segs)
unfolding assemble lower
assemble-slash_path true stack h = (stack, h, refl)
assemble-slash_path false stack h =
    (map lower stack, map-lower-IsClean stack h, ap (λ r. b'/' ∷ r) (lower-join_onto stack []))

lower-assemble : (stack : List Bytes) → lower (assemble false stack) ≡ assemble false stack
unfolding assemble
lower-assemble stack =
    slash_lower (lower (join_onto stack [])) ∙ ap (λ r. b'/' ∷ r) (lower_twice (join_onto stack []))

-- What `normalize_path` builds from the decoded text.
abbrev pub finish_path : Bool → Bytes → Bytes
finish_path case_sensitive d =
    if is_empty d then codes "/" else assemble case_sensitive (split_segments [] [] d)

finish_path-IsClean :
    (case_sensitive : Bool) (d : Bytes)
    → All IsPlain d
    → (segs : List Bytes) × All IsClean segs × (finish_path case_sensitive d ≡ slash_path segs)
finish_path-IsClean case_sensitive [] p = ([], tt, unfold join_onto in refl)
finish_path-IsClean case_sensitive (c ∷ d) p =
    assemble-slash_path case_sensitive (split_segments [] [] (c ∷ d))
      (split_segments-IsClean (c ∷ d) [] [] (unfold has_byte in refl) tt p tt)

lower-finish_path : (d : Bytes) → lower (finish_path false d) ≡ finish_path false d
lower-finish_path [] = unfold lower in refl
lower-finish_path (c ∷ d) = lower-assemble (split_segments [] [] (c ∷ d))

-- An accepted path is what the decoder let through, split and put together again.
pub normalize_path-eq-ok :
    (case_sensitive : Bool) (path : Bytes) {out : Bytes}
    → normalize_path case_sensitive path ≡ ok out
    → (d : Bytes) × (percent_decode (before_byte b'?' path) ≡ ok d)
      × (out ≡ finish_path case_sensitive d)
unfolding normalize_path
normalize_path-eq-ok case_sensitive path {out} h =
    let (d, e, k) = >>=-eq-ok (percent_decode (before_byte b'?' path)) _ h in (d, e, final d k)
  where
    result : Outcome PathError Bytes
    result = ok out

    final :
        (d : Bytes)
        → (if is_empty d
            then ok (codes "/")
            else ok (assemble case_sensitive (split_segments [] [] d)))
          ≡ result
        → out ≡ finish_path case_sensitive d
    final [] k = ground arith
    final (c ∷ d) k = ground arith

lower_or_not :
    (case_sensitive : Bool) (d : Bytes) {out : Bytes}
    → out ≡ finish_path case_sensitive d
    → (case_sensitive ≡ true) ⊎ (lower out ≡ out)
lower_or_not true d k = inl refl
lower_or_not false d k = inr (rw k (lower-finish_path d))

-- A normalized path is a slash and segments with a slash between each two, where no segment is
-- empty, `.` or `..`, or holds a slash, a percent sign, a backslash or a NUL; it is in lower case
-- if paths are not case sensitive.
pub normalize_path-IsClean :
    (case_sensitive : Bool) (path : Bytes) {out : Bytes}
    → normalize_path case_sensitive path ≡ ok out
    → (segs : List Bytes) × All IsClean segs
      × (out ≡ slash_path segs)
      × ((case_sensitive ≡ true) ⊎ (lower out ≡ out))
normalize_path-IsClean case_sensitive path {out} h =
    let (d, e, k) = normalize_path-eq-ok case_sensitive path h in
    let (safe, bare) = percent_decode-IsSafe (before_byte b'?' path) e in
    let (segs, a, b) = finish_path-IsClean case_sensitive d (IsPlain-decoded d safe bare) in
    (segs, a, k ∙ b, lower_or_not case_sensitive d k)
