-- ===== src/Http/Body/Streams.antt =====
-- However the bytes are cut into reads, the reader sees one stream.
use asio_owen.Prelude.{
  ℕ, suc, ◌≤◌, false, ◌&&◌, ltb, ◌==◌, List, [], ◌∷◌, ◌++◌, append_assoc, Option, none, some,
  some-injective, Bytes, has_byte, length, drop, length-append, Outcome, ok, ◌≡◌, refl, sym, ap,
  ◌∙◌, arith, Bool-cases, inl, inr,
}
use asio_owen.Http.Body.{
  BodyReadStatus, Read, received, failed, Connection, max_line_size, before_line, find_crlf,
  line_or, consume_line,
}

-- The bytes that come before the first failure.
abbrev pub stream : List Read → Bytes
stream [] = []
stream (failed _ ∷ reads) = []
stream (received bytes ∷ reads) = bytes ++ stream reads

abbrev pub stream_of : Connection → Bytes
stream_of c = c.preread ++ stream c.reads

-- A line ends at the first CRLF behind it.
pub find_crlf-line :
    (line rest : Bytes)
    → has_byte 10 line ≡ false
    → find_crlf (line ++ 13 ∷ 10 ∷ rest) ≡ some (line, rest)
unfolding find_crlf has_byte
find_crlf-line [] rest h = refl
find_crlf-line (c ∷ []) rest h = ground arith
find_crlf-line (c ∷ d ∷ line) rest h = ground (arith, find_crlf-line (d ∷ line) rest)

abbrev Found : Bytes → Bytes × Bytes → Bytes × Bytes
Found t (line, rest) = (line, rest ++ t)

before_line-Found :
    (c : ℕ) (t : Bytes) (o q : Option (Bytes × Bytes)) (p : Bytes × Bytes)
    → ((r : Bytes × Bytes) → o ≡ some r → q ≡ some (Found t r))
    → before_line c o ≡ some p
    → before_line c q ≡ some (Found t p)
before_line-Found c t none q p f h = cc
before_line-Found c t (some (line, rest)) q p f h =
    ap (before_line c) (f (line, rest) refl)
    ∙ ap (λ r. some (Found t r)) (some-injective (c ∷ line, rest) p h)

before_line-none : (c : ℕ) (o : Option (Bytes × Bytes)) → before_line c o ≡ none → o ≡ none
before_line-none c none h = refl
before_line-none c (some (line, rest)) h = cc

-- More bytes do not change a line that was found.
find_crlf-append :
    (s t : Bytes) (p : Bytes × Bytes) → find_crlf s ≡ some p → find_crlf (s ++ t) ≡ some (Found t p)
unfolding find_crlf
find_crlf-append [] t p h = cc
find_crlf-append (c ∷ []) t p h = cc
find_crlf-append (c ∷ d ∷ s) t p h = elim (Bool-cases (c == 13 && d == 10)) [
  | inl e ↦
      rw (e, find_crlf)
        (ap (λ r. some (Found t r)) (some-injective ([], s) p (rw (e, find_crlf) at h)))
  | inr e ↦
      rw (e, find_crlf)
        (before_line-Found c t (find_crlf (d ∷ s)) (find_crlf (d ∷ s ++ t)) p
          (find_crlf-append (d ∷ s) t) (rw (e, find_crlf) at h))
]

-- Without one, the buffer reaches at most to the byte before the line feed.
find_crlf-short :
    (s t line rest : Bytes)
    → s ++ t ≡ line ++ 13 ∷ 10 ∷ rest
    → find_crlf s ≡ none
    → length s ≤ suc (length line)
unfolding find_crlf
find_crlf-short [] t line rest e n = omega arith
find_crlf-short (c ∷ []) t line rest e n = omega arith
find_crlf-short (c ∷ d ∷ s) t [] rest e n = absurd (ground (arith, e))
find_crlf-short (c ∷ d ∷ s) t (x ∷ line) rest e n = elim (Bool-cases (c == 13 && d == 10)) [
  | inl k ↦ absurd (some_none ([], s) (rw (k, find_crlf) at n))
  | inr k ↦
      let shorter =
        find_crlf-short (d ∷ s) t line rest (ap (drop 1) e)
          (before_line-none c (find_crlf (d ∷ s)) (rw (k, find_crlf) at n)) in
      omega (arith, shorter)
]
  where
    some_none : (p : Bytes × Bytes) → some p ≡ none → ⊥
    some_none p q = cc

-- A line that the buffer holds is the line of the stream.
found_line :
    (buffer t line rest : Bytes) (p : Bytes × Bytes)
    → buffer ++ t ≡ line ++ 13 ∷ 10 ∷ rest
    → has_byte 10 line ≡ false
    → find_crlf buffer ≡ some p
    → Found t p ≡ (line, rest)
found_line buffer t line rest p e h k =
    some-injective (Found t p) (line, rest)
      (sym (find_crlf-append buffer t p k) ∙ ap find_crlf e ∙ find_crlf-line line rest h)

abbrev ReadsLine : Bytes → Bytes → Outcome BodyReadStatus Bytes × Connection → Type 0
ReadsLine line rest r = (d : Connection) × (r ≡ (ok line, d)) × (stream_of d ≡ rest)

line_or-ReadsLine :
    (buffer : Bytes) (reads : List Read) (more : Outcome BodyReadStatus Bytes × Connection)
    (line rest : Bytes)
    → buffer ++ stream reads ≡ line ++ 13 ∷ 10 ∷ rest
    → has_byte 10 line ≡ false
    → suc (length line) ≤ max_line_size
    → (find_crlf buffer ≡ none → ReadsLine line rest more)
    → (o : Option (Bytes × Bytes)) → find_crlf buffer ≡ o
    → ReadsLine line rest (line_or buffer reads o more)
line_or-ReadsLine buffer reads more line rest e h m next (some (l, r)) k =
    let q = found_line buffer (stream reads) line rest (l, r) e h k in
    (
      record { preread = r; reads = reads },
      ap (λ p. (ok p.0, record { preread = r; reads = reads })) q,
      ap (λ p. p.1) q,
    )
line_or-ReadsLine buffer reads more line rest e h m next none k =
    let short = find_crlf-short buffer (stream reads) line rest e k in
    let fits : ltb max_line_size (length buffer) ≡ false = ground (arith, short, m) in
    rw fits (next k)

-- A buffer with the whole line in it has the line's end in it.
whole_line :
    (buffer line rest : Bytes) → buffer ++ [] ≡ line ++ 13 ∷ 10 ∷ rest → find_crlf buffer ≡ none → ⊥
whole_line buffer line rest e n =
    let short = find_crlf-short buffer [] line rest e n in
    absurd (
      omega
        (arith, short, ap length e, length-append buffer [], length-append line (13 ∷ 10 ∷ rest)))

-- The reader takes the line that the stream begins with, and leaves the rest, wherever the reads end.
pub consume_line-stream :
    (buffer : Bytes) (reads : List Read) (line rest : Bytes)
    → buffer ++ stream reads ≡ line ++ 13 ∷ 10 ∷ rest
    → has_byte 10 line ≡ false
    → suc (length line) ≤ max_line_size
    → (d : Connection) × (consume_line buffer reads ≡ (ok line, d)) × (stream_of d ≡ rest)
unfolding consume_line
consume_line-stream buffer [] line rest e h m =
    line_or-ReadsLine buffer [] _ line rest e h m (λ n. absurd (whole_line buffer line rest e n))
      (find_crlf buffer) refl
consume_line-stream buffer (failed status ∷ reads) line rest e h m =
    line_or-ReadsLine buffer (failed status ∷ reads) _ line rest e h m
      (λ n. absurd (whole_line buffer line rest e n)) (find_crlf buffer) refl
consume_line-stream buffer (received bytes ∷ reads) line rest e h m =
    line_or-ReadsLine buffer (received bytes ∷ reads) _ line rest e h m
      (λ n.
        consume_line-stream (buffer ++ bytes) reads line rest
          (append_assoc buffer bytes (stream reads) ∙ e) h m)
      (find_crlf buffer) refl
