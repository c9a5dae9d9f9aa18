-- ===== src/Http/Body.antt =====
-- `src/http/http_body_reader.hpp`: reading a body of known length, or in chunks. What the socket
-- will deliver is a list of reads; after the last one the peer has closed.
pub mod Streams
pub mod Exact
pub mod Chunks
pub mod Fuel
pub mod Limit
use asio_owen.Prelude.{
  ℕ, zero, suc, ◌+◌, ◌-◌, Bool, true, false, not, ◌&&◌, ◌||◌, ltb, leb, List, [], ◌∷◌, ◌++◌, ◌==◌,
  min, if◌then◌else◌, Option, none, some, Bytes, is_empty, length, take, drop, get_elem?, Outcome,
  ok, err,
}
use asio_owen.Http.Numbers.{parse_hex_size_line}

pub data BodyReadStatus : Type 0 where
  success timed_out peer_closed too_large invalid_chunk sys_error : BodyReadStatus

pub record BodyReadResult : Type 0 where
  pub status : BodyReadStatus
  pub body : Bytes

-- One `read_body_some`: some bytes, or the status of an error.
pub data Read : Type 0 where
  received : Bytes → Read
  failed : BodyReadStatus → Read

-- The bytes read ahead, and the reads to come.
pub record Connection : Type 0 where
  pub preread : Bytes
  pub reads : List Read

-- `kMaxChunkControlLineSize`
abbrev pub max_line_size : ℕ
max_line_size = 8192

abbrev pub before_line : ℕ → Option (Bytes × Bytes) → Option (Bytes × Bytes)
before_line c none = none
before_line c (some (line, rest)) = some (c ∷ line, rest)

-- What stands before the first CRLF, and behind it.
unfoldable pub find_crlf : Bytes → Option (Bytes × Bytes)
find_crlf [] = none
find_crlf (c ∷ []) = none
find_crlf (c ∷ d ∷ s) =
    let later = before_line c (find_crlf (d ∷ s)) in
    if c == 13 && d == 10 then some ([], s) else later

-- After the search in the buffer: the line, or `more` reads unless the line is too long.
abbrev pub line_or :
    Bytes
    → List Read
    → Option (Bytes × Bytes)
    → Outcome BodyReadStatus Bytes × Connection
    → Outcome BodyReadStatus Bytes × Connection
line_or buffer reads (some (line, rest)) more = (ok line, record { preread = rest; reads = reads })
line_or buffer reads none more =
    if ltb max_line_size (length buffer)
    then (err invalid_chunk, record { preread = buffer; reads = reads })
    else more

unfoldable pub consume_line : Bytes → List Read → Outcome BodyReadStatus Bytes × Connection
unfolding find_crlf
consume_line buffer [] =
    line_or buffer [] (find_crlf buffer) (err peer_closed, record { preread = buffer; reads = [] })
consume_line buffer (failed status ∷ reads) =
    line_or buffer (failed status ∷ reads) (find_crlf buffer)
      (err status, record { preread = buffer; reads = reads })
consume_line buffer (received bytes ∷ reads) =
    line_or buffer (received bytes ∷ reads) (find_crlf buffer)
      (consume_line (buffer ++ bytes) reads)

-- Appends `len` bytes to `out`. All of the buffer is taken before the next read.
unfoldable pub consume_exact :
    ℕ → Bytes → Bytes → List Read → Outcome BodyReadStatus Bytes × Connection
consume_exact len out buffer [] =
    if leb len (length buffer)
    then (ok (out ++ take len buffer), record { preread = drop len buffer; reads = [] })
    else (err peer_closed, record { preread = []; reads = [] })
consume_exact len out buffer (failed status ∷ reads) =
    if leb len (length buffer)
    then (
      ok (out ++ take len buffer),
      record { preread = drop len buffer; reads = failed status ∷ reads },
    )
    else (err status, record { preread = []; reads = reads })
consume_exact len out buffer (received bytes ∷ reads) =
    let more = consume_exact (len - length buffer) (out ++ buffer) bytes reads in
    if leb len (length buffer)
    then (
      ok (out ++ take len buffer),
      record { preread = drop len buffer; reads = received bytes ∷ reads },
    )
    else more

abbrev pub Finished : Type 0
Finished = BodyReadResult × Connection

abbrev pub with_body : Outcome BodyReadStatus Bytes × Connection → Finished
with_body (ok body, c) = (record { status = success; body = body }, c)
with_body (err status, c) = (record { status = status; body = [] }, c)

unfoldable pub read_content_length_body : ℕ → ℕ → Connection → Finished
unfolding consume_exact
read_content_length_body content_length max_body_size c =
    if ltb max_body_size content_length
    then (record { status = too_large; body = [] }, c)
    else if leb content_length (length c.preread)
    then (
      record { status = success; body = take content_length c.preread },
      record { preread = drop content_length c.preread; reads = c.reads },
    )
    else with_body (consume_exact (content_length - length c.preread) c.preread [] c.reads)

-- The trailers behind the last chunk; `none` is out of fuel.
abbrev pub trailer_or :
    Bytes
    → (Connection → Option Finished)
    → Outcome BodyReadStatus Bytes × Connection
    → Option Finished
trailer_or body more (err status, c) = some (record { status = status; body = body }, c)
trailer_or body more (ok [], c) = some (record { status = success; body = body }, c)
trailer_or body more (ok (_ ∷ _), c) = more c

unfoldable pub read_trailers : ℕ → Bytes → Connection → Option Finished
unfolding consume_line
read_trailers zero body c = none
read_trailers (suc fuel) body c =
    trailer_or body (λ d. read_trailers fuel body d) (consume_line c.preread c.reads)

abbrev pub is_byte_at : ℕ → ℕ → Bytes → Bool
is_byte_at i c s = elim (get_elem? s i) [ none ↦ false | some d ↦ d == c ]

-- The data of a chunk with the CRLF behind it.
abbrev pub chunk_or :
    ℕ
    → Bytes
    → (Bytes → Connection → Option Finished)
    → Outcome BodyReadStatus Bytes × Connection
    → Option Finished
chunk_or size body more (err status, c) = some (record { status = status; body = [] }, c)
chunk_or size body more (ok tmp, c) =
    if ltb (length tmp) (size + 2)
      || not (is_byte_at size 13 tmp)
      || not (is_byte_at (size + 1) 10 tmp)
    then some (record { status = invalid_chunk; body = [] }, c)
    else more (body ++ take size tmp) c

-- What follows a size line, the size being `none` if it is not a number.
abbrev pub size_or :
    ℕ
    → Bytes
    → (Connection → Option Finished)
    → (Bytes → Connection → Option Finished)
    → Option ℕ
    → Connection
    → Option Finished
size_or max_body_size body trailers more none c =
    some (record { status = invalid_chunk; body = body }, c)
size_or max_body_size body trailers more (some zero) c = trailers c
size_or max_body_size body trailers more (some (suc n)) c =
    if ltb max_body_size (suc n) || ltb (max_body_size - suc n) (length body)
    then some (record { status = too_large; body = [] }, c)
    else chunk_or (suc n) body more (consume_exact (suc n + 2) [] c.preread c.reads)

abbrev pub control_or :
    ℕ
    → Bytes
    → (Connection → Option Finished)
    → (Bytes → Connection → Option Finished)
    → Outcome BodyReadStatus Bytes × Connection
    → Option Finished
control_or max_body_size body trailers more (err status, c) =
    some (record { status = status; body = body }, c)
control_or max_body_size body trailers more (ok line, c) =
    size_or max_body_size body trailers more (parse_hex_size_line line) c

unfoldable pub read_chunks : ℕ → ℕ → Bytes → Connection → Option Finished
unfolding consume_line consume_exact read_trailers parse_hex_size_line
read_chunks max_body_size zero body c = none
read_chunks max_body_size (suc fuel) body c =
    control_or max_body_size body (λ d. read_trailers fuel body d)
      (λ b d. read_chunks max_body_size fuel b d) (consume_line c.preread c.reads)

-- The bytes that are there and those that the reads will bring.
abbrev pub bytes_in : List Read → ℕ
bytes_in [] = 0
bytes_in (received bytes ∷ reads) = length bytes + bytes_in reads
bytes_in (failed _ ∷ reads) = bytes_in reads

abbrev pub available : Connection → ℕ
available c = length c.preread + bytes_in c.reads

-- Each round takes a line off what is available, so this fuel is enough.
unfoldable pub read_chunked_body : ℕ → Connection → Option Finished
unfolding read_chunks
read_chunked_body max_body_size c = read_chunks max_body_size (suc (available c)) [] c
