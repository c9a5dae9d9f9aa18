-- ===== src/Http/Body/Fuel.antt =====
-- The fuel of the chunk reader is enough: each round takes at least a line end off the connection.
use asio_owen.Prelude.{
  ℕ, zero, suc, ◌+◌, ◌-◌, ◌≤◌, ◌<◌, Bool, true, false, ◌&&◌, leb, ltb, ◌==◌, if◌then◌else◌, List,
  [], ◌∷◌, ◌++◌, Option, none, some, some-injective, Bytes, length, length-append, take, drop,
  Outcome, ok, err, ◌≡◌, refl, ap, arith, Bool-cases, inl, inr,
}
use asio_owen.Http.Numbers.{parse_hex_size_line}
use asio_owen.Http.Body.{
  BodyReadStatus, invalid_chunk, max_line_size, Read, received, failed, Connection, Finished,
  before_line, find_crlf, line_or, consume_line, consume_exact, trailer_or, read_trailers, chunk_or,
  size_or, control_or, read_chunks, bytes_in, available, read_chunked_body,
}

-- A step that succeeds takes `k` bytes or more off the `n` that were there.
abbrev Leaves : ℕ → ℕ → Outcome BodyReadStatus Bytes × Connection → Type 0
Leaves k n (ok _, d) = available d + k ≤ n
Leaves k n (err _, d) = Unit

abbrev Ends : Option Finished → Type 0
Ends r = (f : Finished) × (r ≡ some f)

find_crlf-length :
    (s : Bytes) (p : Bytes × Bytes) → find_crlf s ≡ some p → length p.1 + 2 ≤ length s
unfolding find_crlf
find_crlf-length [] p h = cc
find_crlf-length (c ∷ []) p h = cc
find_crlf-length (c ∷ d ∷ s) p h = elim (Bool-cases (c == 13 && d == 10)) [
  | inl e ↦
      let same : ([], s) ≡ p = some-injective ([], s) p (rw (e, find_crlf) at h) in
      omega (arith, ap (λ q. length q.1) same)
  | inr e ↦ go (find_crlf (d ∷ s)) (find_crlf-length (d ∷ s)) (rw (e, find_crlf) at h)
]
  where
    go :
        (o : Option (Bytes × Bytes))
        → ((q : Bytes × Bytes) → o ≡ some q → length q.1 + 2 ≤ suc (length s))
        → before_line c o ≡ some p
        → length p.1 + 2 ≤ suc (suc (length s))
    go none f k = cc
    go (some (line, rest)) f k =
        let found = f (line, rest) refl in
        omega (arith, found, ap (λ q. length q.1) (some-injective (c ∷ line, rest) p k))

if_else :
    (b : Bool) (n : ℕ) (d : Connection) (x : Outcome BodyReadStatus Bytes × Connection)
    → Leaves 2 n x
    → Leaves 2 n (if b then (err invalid_chunk, d) else x)
if_else true n d x l = tt
if_else false n d x l = l

line_or-Leaves :
    (buffer : Bytes) (reads : List Read) (more : Outcome BodyReadStatus Bytes × Connection)
    → Leaves 2 (length buffer + bytes_in reads) more
    → (o : Option (Bytes × Bytes)) → find_crlf buffer ≡ o
    → Leaves 2 (length buffer + bytes_in reads) (line_or buffer reads o more)
line_or-Leaves buffer reads more l (some (line, rest)) k =
    let found = find_crlf-length buffer (line, rest) k in omega (arith, found)
line_or-Leaves buffer reads more l none k =
    if_else (ltb max_line_size (length buffer)) (length buffer + bytes_in reads) _ more l

Leaves-more :
    (k n m : ℕ) (x : Outcome BodyReadStatus Bytes × Connection)
    → n ≤ m
    → Leaves k n x
    → Leaves k m x
Leaves-more k n m (ok _, d) h l = omega arith
Leaves-more k n m (err _, d) h l = tt

consume_line-Leaves :
    (buffer : Bytes) (reads : List Read)
    → Leaves 2 (length buffer + bytes_in reads) (consume_line buffer reads)
unfolding consume_line
consume_line-Leaves buffer [] = line_or-Leaves buffer [] _ tt (find_crlf buffer) refl
consume_line-Leaves buffer (failed status ∷ reads) =
    line_or-Leaves buffer (failed status ∷ reads) _ tt (find_crlf buffer) refl
consume_line-Leaves buffer (received bytes ∷ reads) =
    line_or-Leaves buffer (received bytes ∷ reads) (consume_line (buffer ++ bytes) reads)
      (Leaves-more 2 _ _ (consume_line (buffer ++ bytes) reads)
        (omega (arith, length-append buffer bytes)) (consume_line-Leaves (buffer ++ bytes) reads))
      (find_crlf buffer) refl

length-drop-le : (n : ℕ) (s : Bytes) → length (drop n s) ≤ length s
length-drop-le zero s = omega arith
length-drop-le (suc n) [] = omega arith
length-drop-le (suc n) (c ∷ s) = omega (arith, length-drop-le n s)

taken_or :
    (len : ℕ) (out buffer : Bytes) (reads : List Read) (b : Bool)
    (more : Outcome BodyReadStatus Bytes × Connection)
    → Leaves 0 (length buffer + bytes_in reads) more
    → Leaves 0 (length buffer + bytes_in reads) (
        if b
        then (ok (out ++ take len buffer), record { preread = drop len buffer; reads = reads })
        else more)
taken_or len out buffer reads true more l = omega (arith, length-drop-le len buffer)
taken_or len out buffer reads false more l = l

consume_exact-Leaves :
    (len : ℕ) (out buffer : Bytes) (reads : List Read)
    → Leaves 0 (length buffer + bytes_in reads) (consume_exact len out buffer reads)
unfolding consume_exact
consume_exact-Leaves len out buffer [] = taken_or len out buffer [] (leb len (length buffer)) _ tt
consume_exact-Leaves len out buffer (failed status ∷ reads) =
    taken_or len out buffer (failed status ∷ reads) (leb len (length buffer)) _ tt
consume_exact-Leaves len out buffer (received bytes ∷ reads) =
    let more = consume_exact (len - length buffer) (out ++ buffer) bytes reads in
    taken_or len out buffer (received bytes ∷ reads) (leb len (length buffer)) more (
      Leaves-more 0 _ _ more (omega arith)
        (consume_exact-Leaves (len - length buffer) (out ++ buffer) bytes reads))

refuse_or :
    (b : Bool) (f : Finished) (r : Option Finished) → Ends r → Ends (if b then some f else r)
refuse_or true f r e = (f, refl)
refuse_or false f r e = e

trailer_or-Ends :
    (n : ℕ) (body : Bytes) (more : Connection → Option Finished)
    (x : Outcome BodyReadStatus Bytes × Connection)
    → Leaves 2 n x
    → ((d : Connection) → available d + 2 ≤ n → Ends (more d))
    → Ends (trailer_or body more x)
trailer_or-Ends n body more (err status, d) l h = (_, refl)
trailer_or-Ends n body more (ok [], d) l h = (_, refl)
trailer_or-Ends n body more (ok (c ∷ line), d) l h = h d l

read_trailers-Ends :
    (fuel : ℕ) (body : Bytes) (c : Connection)
    → available c < fuel
    → Ends (read_trailers fuel body c)
unfolding read_trailers
read_trailers-Ends zero body c h = absurd (omega arith)
read_trailers-Ends (suc fuel) body c h =
    trailer_or-Ends (available c) body (λ d. read_trailers fuel body d)
      (consume_line c.preread c.reads) (consume_line-Leaves c.preread c.reads)
      (λ d k. read_trailers-Ends fuel body d (omega arith))

-- A chunk's data, whole or not, leaves no more than there was.
chunk_or-Ends :
    (n size : ℕ) (body : Bytes) (more : Bytes → Connection → Option Finished)
    (x : Outcome BodyReadStatus Bytes × Connection)
    → Leaves 0 n x
    → ((b : Bytes) (d : Connection) → available d ≤ n → Ends (more b d))
    → Ends (chunk_or size body more x)
chunk_or-Ends n size body more (err status, d) l h = (_, refl)
chunk_or-Ends n size body more (ok tmp, d) l h =
    refuse_or _ _ _ (h (body ++ take size tmp) d (omega arith))

size_or-Ends :
    (max_body_size n : ℕ) (body : Bytes) (trailers : Connection → Option Finished)
    (more : Bytes → Connection → Option Finished) (o : Option ℕ) (c : Connection)
    → available c ≤ n
    → ((d : Connection) → available d ≤ n → Ends (trailers d))
    → ((b : Bytes) (d : Connection) → available d ≤ n → Ends (more b d))
    → Ends (size_or max_body_size body trailers more o c)
size_or-Ends max_body_size n body trailers more none c l g h = (_, refl)
size_or-Ends max_body_size n body trailers more (some zero) c l g h = g c l
size_or-Ends max_body_size n body trailers more (some (suc size)) c l g h = refuse_or _ _ _ (
    chunk_or-Ends n (suc size) body more (consume_exact (suc size + 2) [] c.preread c.reads)
      (Leaves-more 0 _ n (consume_exact (suc size + 2) [] c.preread c.reads) l
        (consume_exact-Leaves (suc size + 2) [] c.preread c.reads))
      h)

control_or-Ends :
    (max_body_size n : ℕ) (body : Bytes) (trailers : Connection → Option Finished)
    (more : Bytes → Connection → Option Finished) (x : Outcome BodyReadStatus Bytes × Connection)
    → Leaves 2 n x
    → ((d : Connection) → available d + 2 ≤ n → Ends (trailers d))
    → ((b : Bytes) (d : Connection) → available d + 2 ≤ n → Ends (more b d))
    → Ends (control_or max_body_size body trailers more x)
control_or-Ends max_body_size n body trailers more (err status, d) l g h = (_, refl)
control_or-Ends max_body_size n body trailers more (ok line, d) l g h =
    size_or-Ends max_body_size (available d) body trailers more (parse_hex_size_line line) d
      (omega arith) (λ d' k. g d' (omega (arith, k, l))) (λ b d' k. h b d' (omega (arith, k, l)))

read_chunks-Ends :
    (max_body_size fuel : ℕ) (body : Bytes) (c : Connection)
    → available c < fuel
    → Ends (read_chunks max_body_size fuel body c)
unfolding read_chunks
read_chunks-Ends max_body_size zero body c h = absurd (omega arith)
read_chunks-Ends max_body_size (suc fuel) body c h =
    control_or-Ends max_body_size (available c) body (λ d. read_trailers fuel body d)
      (λ b d. read_chunks max_body_size fuel b d) (consume_line c.preread c.reads)
      (consume_line-Leaves c.preread c.reads) (λ d k. read_trailers-Ends fuel body d (omega arith))
      (λ b d k. read_chunks-Ends max_body_size fuel b d (omega arith))

-- Whatever the connection brings, the chunk reader comes to an end: its fuel is enough.
pub read_chunked_body_ends :
    (max_body_size : ℕ) (c : Connection)
    → (f : Finished) × (read_chunked_body max_body_size c ≡ some f)
unfolding read_chunked_body
read_chunked_body_ends max_body_size c =
    read_chunks-Ends max_body_size (suc (available c)) [] c (omega arith)
