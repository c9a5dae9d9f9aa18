-- ===== src/Security/Path/Stable.antt =====
-- Normalizing a normalized path changes nothing, unless a decoded `?` now reads as a query.
use asio_owen.Prelude.{
  Bool, true, false, List, [], ◌∷◌, ◌++◌, ◌==◌, ◌≡◌, ◌⊎◌, inl, inr, refl, sym, ap, ◌∙◌, arith,
  Bytes, append-nil, append_assoc, All, All-append, has_byte, before_byte_none, lower, ok,
}
use asio_owen.Security.Path.{
  percent_decode, push_segment, split_segments, join_onto, assemble, normalize_path,
}
use asio_owen.Security.Path.Decode.{IsSafe, percent_decode-copies}
use asio_owen.Security.Path.Normal.{
  IsPlain, IsClean, slash_path, slash_lower, normalize_path-IsClean,
}

push_segment-clean : (s : Bytes) (stack : List Bytes) → IsClean s → push_segment s stack ≡ s ∷ stack
unfolding push_segment
push_segment-clean s stack h = rw (h.nonempty, h.no_dot, h.no_parent)

split_segments_word :
    (w seg : Bytes) (stack : List Bytes) (rest : Bytes)
    → has_byte b'/' w ≡ false
    → split_segments seg stack (w ++ rest) ≡ split_segments (seg ++ w) stack rest
unfolding split_segments has_byte
split_segments_word [] seg stack rest h = rw append-nil
split_segments_word (c ∷ w) seg stack rest h =
    let miss : (c == b'/') ≡ false = ground arith in
    rw (miss, split_segments)
      (split_segments_word w (seg ++ c ∷ []) stack rest (ground arith) ∙ rw append_assoc)

split_segments_slash :
    (seg : Bytes) (stack : List Bytes) (rest : Bytes)
    → split_segments seg stack (b'/' ∷ rest) ≡ split_segments [] (push_segment seg stack) rest
unfolding split_segments
split_segments_slash seg stack rest = refl

-- The scan of a joined stack rebuilds the stack.
split_segments-join_onto :
    (s : Bytes) (stack : List Bytes) (out : Bytes)
    → IsClean s
    → All IsClean stack
    → split_segments [] [] (join_onto (s ∷ stack) out) ≡ split_segments s stack out
unfolding join_onto
split_segments-join_onto s [] out h k = split_segments_word s [] [] out h.no_slash
split_segments-join_onto s (t ∷ stack) out h k =
    split_segments-join_onto t stack (b'/' ∷ (s ++ out)) k.0 k.1
    ∙ split_segments_slash t stack (s ++ out)
    ∙ ap (λ st. split_segments [] st (s ++ out)) (push_segment-clean t stack k.0)
    ∙ split_segments_word s [] (t ∷ stack) out h.no_slash

split_segments_first_slash :
    (rest : Bytes) → split_segments [] [] (b'/' ∷ rest) ≡ split_segments [] [] rest
unfolding split_segments push_segment
split_segments_first_slash rest = refl

split_segments_end :
    (s : Bytes) (stack : List Bytes) → IsClean s → split_segments s stack [] ≡ s ∷ stack
unfolding split_segments
split_segments_end s stack h = push_segment-clean s stack h

split_segments-slash_path :
    (stack : List Bytes) → All IsClean stack → split_segments [] [] (slash_path stack) ≡ stack
split_segments-slash_path [] h = unfold split_segments join_onto push_segment in refl
split_segments-slash_path (s ∷ stack) h =
    split_segments_first_slash (join_onto (s ∷ stack) [])
    ∙ split_segments-join_onto s stack [] h.0 h.1
    ∙ split_segments_end s stack h.0

join_onto-IsPlain :
    (stack : List Bytes) (out : Bytes)
    → All IsClean stack
    → All IsPlain out
    → All IsPlain (join_onto stack out)
unfolding join_onto
join_onto-IsPlain [] out h p = p
join_onto-IsPlain (s ∷ []) out h p = All-append IsPlain s out h.0.plain p
join_onto-IsPlain (s ∷ t ∷ stack) out h p =
    join_onto-IsPlain (t ∷ stack) (b'/' ∷ (s ++ out)) h.1
      (refl, All-append IsPlain s out h.0.plain p)

IsPlain-IsSafe : (s : Bytes) → All IsPlain s → IsSafe s × (has_byte b'%' s ≡ false)
unfolding has_byte
IsPlain-IsSafe [] h = (tt, refl)
IsPlain-IsSafe (c ∷ s) h =
    let (a, b) = IsPlain-IsSafe s h.1 in ((ground arith, a), ground (arith, b))

percent_decode-slash_path :
    (stack : List Bytes)
    → All IsClean stack
    → percent_decode (slash_path stack) ≡ ok (slash_path stack)
percent_decode-slash_path stack h =
    let (a, b) = IsPlain-IsSafe (slash_path stack) (refl, join_onto-IsPlain stack [] h tt) in
    percent_decode-copies (slash_path stack) a b

normalize_path-slash_path :
    (case_sensitive : Bool) (stack : List Bytes)
    → assemble case_sensitive stack ≡ slash_path stack
    → All IsClean stack
    → has_byte b'?' (slash_path stack) ≡ false
    → normalize_path case_sensitive (slash_path stack) ≡ ok (slash_path stack)
unfolding normalize_path
normalize_path-slash_path case_sensitive stack e h n =
    rw (before_byte_none b'?' (slash_path stack) n, percent_decode-slash_path stack h)
      (ap ok (ap (assemble case_sensitive) (split_segments-slash_path stack h) ∙ e))

assemble_settled :
    (case_sensitive : Bool) (stack : List Bytes)
    → (case_sensitive ≡ true) ⊎ (lower (slash_path stack) ≡ slash_path stack)
    → assemble case_sensitive stack ≡ slash_path stack
unfolding assemble
assemble_settled true stack h = refl
assemble_settled false stack (inl e) = cc
assemble_settled false stack (inr h) = sym (slash_lower (join_onto stack [])) ∙ h

-- Normalizing twice is normalizing once, unless the first result holds a `?` (from `%3F`).
normalize_path_twice :
    (case_sensitive : Bool) (path : Bytes) {out : Bytes}
    → normalize_path case_sensitive path ≡ ok out
    → has_byte b'?' out ≡ false
    → normalize_path case_sensitive out ≡ ok out
normalize_path_twice case_sensitive path {out} h n =
    let (segs, clean, e, low) = normalize_path-IsClean case_sensitive path h in
    let settled = assemble_settled case_sensitive segs (rw e at low) in
    rw e (normalize_path-slash_path case_sensitive segs settled clean (rw e at n))
