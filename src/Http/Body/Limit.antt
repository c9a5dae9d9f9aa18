-- ===== src/Http/Body/Limit.antt =====
-- No body grows beyond the limit, whatever the connection brings.
use asio_owen.Prelude.{
  ℕ, zero, suc, ◌+◌, ◌-◌, ◌≤◌, Bool, true, false, ◌||◌, ltb, if◌then◌else◌, [], ◌∷◌, ◌++◌, Option,
  none, some, Bytes, length, length-append, length-take, take, Outcome, ok, err, ◌≡◌, refl, subst,
  arith,
}
use asio_owen.Http.Numbers.{parse_hex_size_line}
use asio_owen.Http.Body.{
  BodyReadStatus, Connection, Finished, consume_line, consume_exact, trailer_or, read_trailers,
  chunk_or, size_or, control_or, read_chunks, available, read_chunked_body,
}

module _ (max_body_size : ℕ) where
  abbrev Limited : Option Finished → Type 0
  Limited none = Unit
  Limited (some f) = length f.0.body ≤ max_body_size

  Limited-or :
      (b : Bool) (f : Finished) (r : Option Finished)
      → f.0.body ≡ []
      → (b ≡ false → Limited r)
      → Limited (if b then some f else r)
  Limited-or true f r e h = ground (arith, e)
  Limited-or false f r e h = h refl

  trailer_or-Limited :
      (body : Bytes) (more : Connection → Option Finished)
      (x : Outcome BodyReadStatus Bytes × Connection)
      → length body ≤ max_body_size
      → ((d : Connection) → Limited (more d))
      → Limited (trailer_or body more x)
  trailer_or-Limited body more (err status, d) l h = l
  trailer_or-Limited body more (ok [], d) l h = l
  trailer_or-Limited body more (ok (c ∷ line), d) l h = h d

  read_trailers-Limited :
      (fuel : ℕ) (body : Bytes) (c : Connection)
      → length body ≤ max_body_size
      → Limited (read_trailers fuel body c)
  unfolding read_trailers
  read_trailers-Limited zero body c l = tt
  read_trailers-Limited (suc fuel) body c l =
      trailer_or-Limited body (λ d. read_trailers fuel body d) (consume_line c.preread c.reads) l
        (λ d. read_trailers-Limited fuel body d l)

  chunk_or-Limited :
      (size : ℕ) (body : Bytes) (more : Bytes → Connection → Option Finished)
      (x : Outcome BodyReadStatus Bytes × Connection)
      → length body + size ≤ max_body_size
      → ((b : Bytes) (d : Connection) → length b ≤ max_body_size → Limited (more b d))
      → Limited (chunk_or size body more x)
  chunk_or-Limited size body more (err status, d) l h = omega arith
  chunk_or-Limited size body more (ok tmp, d) l h = Limited-or _ _ _ refl (λ _.
      h (body ++ take size tmp) d
        (omega (arith, l, length-append body (take size tmp), length-take size tmp)))

  size_or-Limited :
      (body : Bytes) (trailers : Connection → Option Finished)
      (more : Bytes → Connection → Option Finished) (o : Option ℕ) (c : Connection)
      → length body ≤ max_body_size
      → ((d : Connection) → Limited (trailers d))
      → ((b : Bytes) (d : Connection) → length b ≤ max_body_size → Limited (more b d))
      → Limited (size_or max_body_size body trailers more o c)
  size_or-Limited body trailers more none c l g h = l
  size_or-Limited body trailers more (some zero) c l g h = g c
  size_or-Limited body trailers more (some (suc n)) c l g h =
      Limited-or (ltb max_body_size (suc n) || ltb (max_body_size - suc n) (length body)) _ _ refl
        (λ e.
          chunk_or-Limited (suc n) body more (consume_exact (suc n + 2) [] c.preread c.reads)
            (ground (arith, e)) h)

  control_or-Limited :
      (body : Bytes) (trailers : Connection → Option Finished)
      (more : Bytes → Connection → Option Finished) (x : Outcome BodyReadStatus Bytes × Connection)
      → length body ≤ max_body_size
      → ((d : Connection) → Limited (trailers d))
      → ((b : Bytes) (d : Connection) → length b ≤ max_body_size → Limited (more b d))
      → Limited (control_or max_body_size body trailers more x)
  control_or-Limited body trailers more (err status, d) l g h = l
  control_or-Limited body trailers more (ok line, d) l g h =
      size_or-Limited body trailers more (parse_hex_size_line line) d l g h

  read_chunks-Limited :
      (fuel : ℕ) (body : Bytes) (c : Connection)
      → length body ≤ max_body_size
      → Limited (read_chunks max_body_size fuel body c)
  unfolding read_chunks
  read_chunks-Limited zero body c l = tt
  read_chunks-Limited (suc fuel) body c l =
      control_or-Limited body (λ d. read_trailers fuel body d)
        (λ b d. read_chunks max_body_size fuel b d) (consume_line c.preread c.reads) l
        (λ d. read_trailers-Limited fuel body d l) (λ b d k. read_chunks-Limited fuel b d k)

-- Whatever a chunk reader ends with, the body that it hands out is within the limit.
pub read_chunked_body_limit :
    (max_body_size : ℕ) (c : Connection) {f : Finished}
    → read_chunked_body max_body_size c ≡ some f
    → length f.0.body ≤ max_body_size
unfolding read_chunked_body
read_chunked_body_limit max_body_size c {f} e =
    subst (Limited max_body_size) e
      (read_chunks-Limited max_body_size (suc (available c)) [] c (omega arith))
