-- ===== src/Http/Body/Exact.antt =====
-- A number of bytes off the stream, wherever the reads end; and the body of known length.
use asio_owen.Prelude.{
  ℕ, ◌-◌, ◌≤◌, ◌<◌, false, leb, ltb, if◌then◌else◌, List, [], ◌∷◌, ◌++◌, append_assoc, Bytes,
  length, length-append, take, drop, Outcome, ok, ◌≡◌, refl, sym, ap, ◌∙◌, arith, Bool-cases, inl,
  inr,
}
use asio_owen.Http.Body.{
  BodyReadStatus, success, Read, received, failed, Connection, consume_exact, with_body,
  read_content_length_body,
}
use asio_owen.Http.Body.Streams.{stream, stream_of}

take_enough :
    (buffer t wanted rest : Bytes)
    → buffer ++ t ≡ wanted ++ rest
    → length wanted ≤ length buffer
    → (take (length wanted) buffer ≡ wanted) × (drop (length wanted) buffer ++ t ≡ rest)
take_enough buffer t [] rest e m = (refl, e)
take_enough [] t (c ∷ wanted) rest e m = absurd (omega arith)
take_enough (b ∷ buffer) t (c ∷ wanted) rest e m =
    let (p, q) = take_enough buffer t wanted rest (ap (drop 1) e) (omega arith) in
    (ground (arith, p, e), q)

missing :
    (buffer t wanted rest : Bytes)
    → buffer ++ t ≡ wanted ++ rest
    → length buffer ≤ length wanted
    → (more : Bytes) × (wanted ≡ buffer ++ more) × (t ≡ more ++ rest)
missing [] t wanted rest e m = (wanted, refl, e)
missing (b ∷ buffer) t [] rest e m = absurd (omega arith)
missing (b ∷ buffer) t (c ∷ wanted) rest e m =
    let (more, p, q) = missing buffer t wanted rest (ap (drop 1) e) (omega arith) in
    (more, ground (arith, p, e), q)

abbrev ReadsData : Bytes → Bytes → Outcome BodyReadStatus Bytes × Connection → Type 0
ReadsData body rest r = (d : Connection) × (r ≡ (ok body, d)) × (stream_of d ≡ rest)

-- What the buffer holds is taken; if that is not all, the reads go on.
buffer_or :
    (len : ℕ) (out buffer : Bytes) (reads : List Read)
    (more : Outcome BodyReadStatus Bytes × Connection) (wanted rest : Bytes)
    → buffer ++ stream reads ≡ wanted ++ rest
    → length wanted ≡ len
    → (length buffer < len → ReadsData (out ++ wanted) rest more)
    → ReadsData (out ++ wanted) rest (
        if leb len (length buffer)
        then (ok (out ++ take len buffer), record { preread = drop len buffer; reads = reads })
        else more)
buffer_or len out buffer reads more wanted rest e l next =
    elim (Bool-cases (leb len (length buffer))) [
      | inr k ↦ rw k (next (ground arith))
      | inl k ↦
          let (p, q) = take_enough buffer (stream reads) wanted rest e (ground arith) in
          let d : Connection = record { preread = drop len buffer; reads = reads } in
          rw k (
            d,
            ap (λ n. (ok (out ++ take n buffer), d)) (sym l) ∙ ap (λ t. (ok (out ++ t), d)) p,
            ap (λ n. drop n buffer ++ stream reads) (sym l) ∙ q,
          )
    ]

too_short :
    (buffer wanted rest : Bytes) → buffer ++ [] ≡ wanted ++ rest → length buffer < length wanted → ⊥
too_short buffer wanted rest e m =
    absurd (omega (arith, m, ap length e, length-append buffer [], length-append wanted rest))

-- The reader appends the bytes that the stream begins with, and leaves the rest.
pub consume_exact-stream :
    (len : ℕ) (out buffer : Bytes) (reads : List Read) (wanted rest : Bytes)
    → buffer ++ stream reads ≡ wanted ++ rest
    → length wanted ≡ len
    → (d : Connection) × (consume_exact len out buffer reads ≡ (ok (out ++ wanted), d))
      × (stream_of d ≡ rest)
unfolding consume_exact
consume_exact-stream len out buffer [] wanted rest e l =
    buffer_or len out buffer [] _ wanted rest e l
      (λ m. absurd (too_short buffer wanted rest e (omega (arith, m, l))))
consume_exact-stream len out buffer (failed status ∷ reads) wanted rest e l =
    buffer_or len out buffer (failed status ∷ reads) _ wanted rest e l
      (λ m. absurd (too_short buffer wanted rest e (omega (arith, m, l))))
consume_exact-stream len out buffer (received bytes ∷ reads) wanted rest e l =
    buffer_or len out buffer (received bytes ∷ reads) _ wanted rest e l (λ m.
      let (left, p, q) =
        missing buffer (bytes ++ stream reads) wanted rest e (omega (arith, m, l)) in
      let (d, r, t) =
        consume_exact-stream (len - length buffer) (out ++ buffer) bytes reads left rest q
          (omega (arith, l, ap length p, length-append buffer left)) in
      (d, r ∙ ap (λ b. (ok b, d)) (append_assoc out buffer left ∙ ap (λ b. out ++ b) (sym p)), t))

-- A body of the announced length, within the limit, is the start of the stream, and the rest of the
-- stream stays, wherever the reads end.
read_content_length_body-stream :
    (max_body_size : ℕ) (c : Connection) (body rest : Bytes)
    → length body ≤ max_body_size
    → stream_of c ≡ body ++ rest
    → (d : Connection) × (read_content_length_body (length body) max_body_size c
        ≡ (record { status = success; body = body }, d))
      × (stream_of d ≡ rest)
unfolding read_content_length_body
read_content_length_body-stream max_body_size c body rest m e =
    let small : ltb max_body_size (length body) ≡ false = ground arith in
    elim (Bool-cases (leb (length body) (length c.preread))) [
      | inl k ↦
          let (p, q) = take_enough c.preread (stream c.reads) body rest e (ground arith) in
          let d : Connection = record { preread = drop (length body) c.preread; reads = c.reads } in
          rw (small, k) (d, ap (λ b. (record { status = success; body = b }, d)) p, q)
      | inr k ↦
          let (left, p, q) = missing c.preread (stream c.reads) body rest e (ground arith) in
          let (d, r, t) =
            consume_exact-stream (length body - length c.preread) c.preread [] c.reads left rest q
              (omega (arith, ap length p, length-append c.preread left)) in
          rw (small, k)
            (d, ap with_body r ∙ ap (λ b. (record { status = success; body = b }, d)) (sym p), t)
    ]
