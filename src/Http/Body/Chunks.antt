-- ===== src/Http/Body/Chunks.antt =====
-- A chunked body on the stream is put together again, wherever the reads end.
use asio_owen.Prelude.{
  ℕ, zero, suc, ◌+◌, ◌≤◌, ◌<◌, true, false, not, ◌||◌, ltb, ◌==◌, if◌then◌else◌, List, [], ◌∷◌,
  ◌++◌, append_assoc, append-nil, Option, none, some, Bytes, has_byte, is_empty, length,
  length-append, take, get_elem?, All, ok, ◌≡◌, refl, sym, ap, ◌∙◌, arith,
}
use asio_owen.Http.Numbers.{parse_hex_size_line}
use asio_owen.Http.Body.{
  success, invalid_chunk, Read, received, failed, Connection, Finished, max_line_size,
  consume_exact, trailer_or, read_trailers, is_byte_at, chunk_or, size_or, control_or, read_chunks,
  bytes_in, available, read_chunked_body,
}
use asio_owen.Http.Body.Streams.{stream, stream_of, consume_line-stream}
use asio_owen.Http.Body.Exact.{consume_exact-stream}

-- A size line, which may have an extension, and the data, which is not empty.
pub record Chunk : Type 0 where
  pub line : Bytes
  pub first : ℕ
  pub more : Bytes

abbrev pub content : Chunk → Bytes
content ch = ch.first ∷ ch.more

-- A line that the reader finds and that is not too long for it.
abbrev pub IsControl : Bytes → Type 0
IsControl line = (has_byte 10 line ≡ false) × (suc (length line) ≤ max_line_size)

abbrev pub IsChunk : Chunk → Type 0
IsChunk ch = IsControl ch.line × (parse_hex_size_line ch.line ≡ some (length (content ch)))

abbrev pub IsLast : Bytes → Type 0
IsLast line = IsControl line × (parse_hex_size_line line ≡ some 0)

abbrev pub IsTrailer : Bytes → Type 0
IsTrailer line = IsControl line × (is_empty line ≡ false)

abbrev pub write_trailers : List Bytes → Bytes → Bytes
write_trailers [] rest = 13 ∷ 10 ∷ rest
write_trailers (line ∷ lines) rest = line ++ 13 ∷ 10 ∷ write_trailers lines rest

-- The chunks, the last size line, the trailers, and what follows on the connection.
abbrev pub write_chunks : List Chunk → Bytes → List Bytes → Bytes → Bytes
write_chunks [] last trailers rest = last ++ 13 ∷ 10 ∷ write_trailers trailers rest
write_chunks (ch ∷ chunks) last trailers rest =
    ch.line ++ 13 ∷ 10 ∷ ((content ch ++ 13 ∷ 10 ∷ []) ++ write_chunks chunks last trailers rest)

abbrev pub contents : List Chunk → Bytes
contents [] = []
contents (ch ∷ chunks) = content ch ++ contents chunks

abbrev Reads : Bytes → Bytes → Option Finished → Type 0
Reads body rest r =
    (d : Connection) × (r ≡ some (record { status = success; body = body }, d))
    × (stream_of d ≡ rest)

no_trailer :
    (line : Bytes) (body : Bytes) (more : Connection → Option Finished) (d : Connection)
    → is_empty line ≡ false
    → trailer_or body more (ok line, d) ≡ more d
no_trailer [] body more d h = cc
no_trailer (c ∷ line) body more d h = refl

read_trailers-Reads :
    (trailers : List Bytes) (fuel : ℕ) (body rest : Bytes) (c : Connection)
    → All IsTrailer trailers
    → length trailers < fuel
    → stream_of c ≡ write_trailers trailers rest
    → Reads body rest (read_trailers fuel body c)
unfolding read_trailers
read_trailers-Reads trailers zero body rest c h f e = absurd (omega arith)
read_trailers-Reads [] (suc fuel) body rest c h f e =
    let (d, r, t) =
      consume_line-stream c.preread c.reads [] rest e (unfold has_byte in refl) (omega arith) in
    (d, ap (trailer_or body (λ d. read_trailers fuel body d)) r, t)
read_trailers-Reads (line ∷ trailers) (suc fuel) body rest c h f e =
    let (d, r, t) =
      consume_line-stream c.preread c.reads line (write_trailers trailers rest) e h.0.0.0 h.0.0.1 in
    let (d', r', t') = read_trailers-Reads trailers fuel body rest d h.1 (omega arith) t in
    (
      d',
      ap (trailer_or body (λ d. read_trailers fuel body d)) r
          ∙ no_trailer line body (λ d. read_trailers fuel body d) d h.0.1
          ∙ r',
      t',
    )

take-append : (a b : Bytes) → take (length a) (a ++ b) ≡ a
take-append [] b = refl
take-append (c ∷ a) b = ap (◌∷◌ c) (take-append a b)

get_elem?-append : (a b : Bytes) (n i : ℕ) → n ≡ length a + i → get_elem? (a ++ b) n ≡ get_elem? b i
get_elem?-append [] b n i e = ap (get_elem? b) (e ∙ omega arith)
get_elem?-append (c ∷ a) b zero i e = absurd (omega arith)
get_elem?-append (c ∷ a) b (suc n) i e = get_elem?-append a b n i (omega arith)

size_fits :
    (max_body_size n : ℕ) (body : Bytes) (trailers : Connection → Option Finished)
    (more : Bytes → Connection → Option Finished) (c : Connection)
    → length body + suc n ≤ max_body_size
    → size_or max_body_size body trailers more (some (suc n)) c
      ≡ chunk_or (suc n) body more (consume_exact (suc n + 2) [] c.preread c.reads)
size_fits max_body_size n body trailers more c h = ground arith

chunk_known :
    (size : ℕ) (tmp body : Bytes) (more : Bytes → Connection → Option Finished) (c : Connection)
    → size + 2 ≤ length tmp
    → is_byte_at size 13 tmp ≡ true
    → is_byte_at (size + 1) 10 tmp ≡ true
    → chunk_or size body more (ok tmp, c) ≡ more (body ++ take size tmp) c
chunk_known size tmp body more c h p q =
    let fits : ltb (length tmp) (size + 2) ≡ false = ground arith in
    let whole : (ltb (length tmp) (size + 2)
          || not (is_byte_at size 13 tmp)
          || not (is_byte_at (size + 1) 10 tmp))
        ≡ false =
      ground (arith, fits, p, q) in
    ap
      (λ b.
        if b
        then some (record { status = invalid_chunk; body = [] }, c)
        else more (body ++ take size tmp) c)
      whole

chunk_whole :
    (wanted body : Bytes) (more : Bytes → Connection → Option Finished) (c : Connection)
    → chunk_or (length wanted) body more (ok (wanted ++ 13 ∷ 10 ∷ []), c) ≡ more (body ++ wanted) c
chunk_whole wanted body more c =
    let whole = wanted ++ 13 ∷ 10 ∷ [] in
    chunk_known (length wanted) whole body more c
      (omega (arith, length-append wanted (13 ∷ 10 ∷ [])))
      (ap (λ o. elim o [ none ↦ false | some d ↦ d == 13 ])
        (get_elem?-append wanted (13 ∷ 10 ∷ []) (length wanted) 0 (omega arith)))
      (ap (λ o. elim o [ none ↦ false | some d ↦ d == 10 ])
        (get_elem?-append wanted (13 ∷ 10 ∷ []) (length wanted + 1) 1 refl))
    ∙ ap (λ b. more (body ++ b) c) (take-append wanted (13 ∷ 10 ∷ []))

read_chunks-Reads :
    (max_body_size : ℕ) (chunks : List Chunk) (last : Bytes) (trailers : List Bytes) (fuel : ℕ)
    (body rest : Bytes) (c : Connection)
    → All IsChunk chunks
    → IsLast last
    → All IsTrailer trailers
    → length body + length (contents chunks) ≤ max_body_size
    → length chunks + length trailers + 1 < fuel
    → stream_of c ≡ write_chunks chunks last trailers rest
    → Reads (body ++ contents chunks) rest (read_chunks max_body_size fuel body c)
unfolding read_chunks
read_chunks-Reads max_body_size chunks last trailers zero body rest c a b g m f e =
    absurd (omega arith)
read_chunks-Reads max_body_size [] last trailers (suc fuel) body rest c a b g m f e =
    let tr = λ (d : Connection). read_trailers fuel body d in
    let next = λ (b : Bytes) (d : Connection). read_chunks max_body_size fuel b d in
    let (d, r, t) =
      consume_line-stream c.preread c.reads last (write_trailers trailers rest) e b.0.0 b.0.1 in
    let (d', r', t') = read_trailers-Reads trailers fuel body rest d g (omega arith) t in
    (
      d',
      ap (control_or max_body_size body tr next) r
          ∙ ap (λ o. size_or max_body_size body tr next o d) b.1
          ∙ r'
          ∙ ap (λ s. some (record { status = success; body = s }, d')) (sym (append-nil body)),
      t',
    )
read_chunks-Reads max_body_size (ch ∷ chunks) last trailers (suc fuel) body rest c a b g m f e =
    let tr = λ (d : Connection). read_trailers fuel body d in
    let next = λ (b : Bytes) (d : Connection). read_chunks max_body_size fuel b d in
    let behind = write_chunks chunks last trailers rest in
    let (d, r, t) =
      consume_line-stream c.preread c.reads ch.line ((content ch ++ 13 ∷ 10 ∷ []) ++ behind) e
        a.0.0.0 a.0.0.1 in
    let (d2, r2, t2) =
      consume_exact-stream (length (content ch) + 2) [] d.preread d.reads
        (content ch ++ 13 ∷ 10 ∷ []) behind t (length-append (content ch) (13 ∷ 10 ∷ [])) in
    let (d3, r3, t3) =
      read_chunks-Reads max_body_size chunks last trailers fuel (body ++ content ch) rest d2 a.1 b g
        (omega
          (arith, m, length-append body (content ch), length-append (content ch) (contents chunks)))
        (omega arith) t2 in
    (
      d3,
      ap (control_or max_body_size body tr next) r
          ∙ ap (λ o. size_or max_body_size body tr next o d) a.0.1
          ∙ size_fits max_body_size (length ch.more) body tr next d
              (omega (arith, m, length-append (content ch) (contents chunks)))
          ∙ ap (chunk_or (length (content ch)) body next) r2
          ∙ chunk_whole (content ch) body next d2
          ∙ r3
          ∙ ap (λ s. some (record { status = success; body = s }, d3))
              (append_assoc body (content ch) (contents chunks)),
      t3,
    )

length-stream : (reads : List Read) → length (stream reads) ≤ bytes_in reads
length-stream [] = omega arith
length-stream (failed status ∷ reads) = omega arith
length-stream (received bytes ∷ reads) =
    omega (arith, length-stream reads, length-append bytes (stream reads))

length-stream_of : (c : Connection) → length (stream_of c) ≤ available c
length-stream_of c = omega (arith, length-stream c.reads, length-append c.preread (stream c.reads))

length-write_trailers :
    (trailers : List Bytes) (rest : Bytes)
    → length trailers + 2 ≤ length (write_trailers trailers rest)
length-write_trailers [] rest = omega arith
length-write_trailers (line ∷ trailers) rest = omega (
  arith,
  length-write_trailers trailers rest,
  length-append line (13 ∷ 10 ∷ write_trailers trailers rest),
)

length-write_chunks :
    (chunks : List Chunk) (last : Bytes) (trailers : List Bytes) (rest : Bytes)
    → length chunks + length trailers + 2 ≤ length (write_chunks chunks last trailers rest)
length-write_chunks [] last trailers rest = omega (
  arith,
  length-write_trailers trailers rest,
  length-append last (13 ∷ 10 ∷ write_trailers trailers rest),
)
length-write_chunks (ch ∷ chunks) last trailers rest =
    let behind = write_chunks chunks last trailers rest in
    omega (
      arith,
      length-write_chunks chunks last trailers rest,
      length-append ch.line (13 ∷ 10 ∷ ((content ch ++ 13 ∷ 10 ∷ []) ++ behind)),
      length-append (content ch ++ 13 ∷ 10 ∷ []) behind,
    )

-- A body in chunks, with size lines that spell their lengths and any trailers, is put together from
-- the stream if it is within the limit, and the rest of the stream stays, wherever the reads end.
pub read_chunked_body-stream :
    (max_body_size : ℕ) (chunks : List Chunk) (last : Bytes) (trailers : List Bytes) (rest : Bytes)
    (c : Connection)
    → All IsChunk chunks
    → IsLast last
    → All IsTrailer trailers
    → length (contents chunks) ≤ max_body_size
    → stream_of c ≡ write_chunks chunks last trailers rest
    → (d : Connection) × (read_chunked_body max_body_size c
        ≡ some (record { status = success; body = contents chunks }, d))
      × (stream_of d ≡ rest)
unfolding read_chunked_body
read_chunked_body-stream max_body_size chunks last trailers rest c a b g m e =
    read_chunks-Reads max_body_size chunks last trailers (suc (available c)) [] rest c a b g
      (omega (arith, m))
      (omega
        (arith, length-stream_of c, ap length e, length-write_chunks chunks last trailers rest))
      e
