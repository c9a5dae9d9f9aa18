-- ===== src/Tests/Body.antt =====
-- Bodies that arrive in pieces.
use asio_owen.Prelude.{ℕ, ◌≤◌, [], ◌∷◌, some, codes, length, has_byte, ◌≡◌, refl, arith}
use asio_owen.Http.Numbers.{parse_hex_size_line}
use asio_owen.Http.Body.{
  success, received, failed, sys_error, too_large, Connection, Finished, read_chunked_body,
}
use asio_owen.Http.Body.Streams.{stream_of}
use asio_owen.Http.Body.Chunks.{Chunk, contents, read_chunked_body-stream}
use asio_owen.Http.Body.Fuel.{read_chunked_body_ends}
use asio_owen.Http.Body.Limit.{read_chunked_body_limit}

-- Two reads cut the line end of a size line, and the data.
abbrev chunked : Connection
chunked = record {
  preread = codes "3;a\r";
  reads =
      received (codes "\nab")
      ∷ received (codes "c\r\n0\r\nX: 1\r\n\r\nGET")
      ∷ failed sys_error
      ∷ [];
}

abbrev chunk : Chunk
chunk = record { line = codes "3;a"; first = b'a'; more = codes "bc" }

three : parse_hex_size_line (codes "3;a") ≡ some 3
unfolding parse_hex_size_line
three = refl

zero_size : parse_hex_size_line (codes "0") ≡ some 0
unfolding parse_hex_size_line
zero_size = refl

read_chunked_body-stream_example :
    (d : Connection) × (read_chunked_body 10 chunked
      ≡ some (record { status = success; body = contents (chunk ∷ []) }, d))
    × (stream_of d ≡ codes "GET")
unfolding has_byte
read_chunked_body-stream_example =
    read_chunked_body-stream 10 (chunk ∷ []) (codes "0") (codes "X: 1" ∷ []) (codes "GET") chunked
      (((refl, omega arith), three), tt) ((refl, omega arith), zero_size)
      (((refl, omega arith), refl), tt) (omega arith) refl

read_chunked_body_ends_example : (f : Finished) × (read_chunked_body 10 chunked ≡ some f)
read_chunked_body_ends_example = read_chunked_body_ends 10 chunked

abbrev too_much : Connection
too_much = record { preread = codes "ffffffffffffffff\r\n"; reads = [] }

abbrev after : Connection
after = record { preread = []; reads = [] }

refused_size :
    read_chunked_body 10 too_much ≡ some (record { status = too_large; body = [] }, after)
unfolding read_chunked_body
refused_size = refl

read_chunked_body_limit_example : ◌≤◌ (length {A = ℕ} []) 10
read_chunked_body_limit_example = read_chunked_body_limit 10 too_much refused_size

abbrev plain : Connection
plain = record {
  preread = codes "ab";
  reads = received (codes "c") ∷ received (codes "deGET") ∷ [];
}
