-- ===== src/Security/RateLimit/Snapshot/RoundTrip.antt =====
-- A snapshot that is loaded again, and what any file at all can make of a limiter.
use asio_owen.Prelude.{
  ℕ, ◌+◌, ◌^◌, ◌<◌, ◌≤◌, ◌==◌, ltb, true, false, List, [], ◌∷◌, some, Bytes, bytes_eq_refl, length,
  map, All, drop, ◌≡◌, refl, ap, sym, ◌∙◌, arith, pos, ◌+ℤ◌, ltb_ℤ,
}
use asio_owen.Security.RateLimit.{Doubles, Shard}
use asio_owen.Security.RateLimit.Keys.{Distinct, map_keys}
use asio_owen.Security.RateLimit.Recent.{IsShard}
use asio_owen.Security.RateLimit.Limits.{shard_count}
use asio_owen.Security.RateLimit.Snapshot.{
  signed, hash_step, checksum_from, calculate_checksum, SnapshotHeader, magic_text, Gaps,
  write_header, header_size, read_header, Buckets, write_shards, write_snapshot, read_shards,
  rebuild, load_snapshot,
}
use asio_owen.Security.RateLimit.Snapshot.Words.{word_value-word, not_short}
use asio_owen.Security.RateLimit.Snapshot.Entries.{IsStored, FitsMap, read_shards-write_shards}
use asio_owen.Security.RateLimit.Snapshot.Rebuilt.{refreshed, rebuild-IsShard}

checksum_from-lt : (h : ℕ) (bytes : Bytes) → h < 2 ^ 32 → checksum_from h bytes < 2 ^ 32
unfolding checksum_from
checksum_from-lt h [] l = l
checksum_from-lt h (b ∷ bytes) l = checksum_from-lt (hash_step h b) bytes (omega arith)

late :
    (written now : ℕ) → now ≤ written + 120000 → ltb_ℤ (pos written +ℤ pos 120000) (pos now) ≡ false
unfolding ◌+ℤ◌
late written now h = ground arith

equal : (n : ℕ) → (n == n) ≡ true
equal n = ground arith

-- What a written file says in its header.
record Reads (written sum : ℕ) (h : SnapshotHeader) : Type 0 where
  magic : h.magic ≡ magic_text
  version : h.version ≡ 1
  checksum : h.checksum ≡ sum
  time : h.written_at_ms ≡ pos written

module _ (d : Doubles) where
  file_header :
      (g : Gaps) (written : ℕ) (ms : List (Buckets d))
      → written < 2 ^ 63
      → Reads written
          (calculate_checksum (write_shards d ms))
          (read_header (write_snapshot d g written ms))
  unfolding read_header write_snapshot write_header
  file_header g written ms h = record {
    magic = refl;
    version = refl;
    checksum =
        word_value-word 4 (calculate_checksum (write_shards d ms))
          (checksum_from-lt 2166136261 (write_shards d ms) (omega arith));
    time = ap signed (word_value-word 8 written (omega arith)) ∙ ground arith;
  }

  rebuilt :
      (now : ℕ) (ms : List (Buckets d))
      → All (λ m. Distinct (map_keys m)) ms
      → All (IsShard d) (map (rebuild d now) ms)
        × (map (λ s. s.buckets) (map (rebuild d now) ms) ≡ map (refreshed d now) ms)
  rebuilt now [] h = (tt, refl)
  rebuilt now (m ∷ ms) h =
      let (v, e) = rebuild-IsShard d now m h.0 in
      let (vs, es) = rebuilt now ms h.1 in
      (
        (v, vs),
        ap (λ t. t ∷ map (λ s. s.buckets) (map (rebuild d now) ms)) e
            ∙ ap (λ t. refreshed d now m ∷ t) es,
      )

  FitsMap-Distinct :
      (stored : IsStored d) (ms : List (Buckets d))
      → All (FitsMap d stored) ms
      → All (λ m. Distinct (map_keys m)) ms
  FitsMap-Distinct stored [] h = tt
  FitsMap-Distinct stored (m ∷ ms) h = (h.0.2, FitsMap-Distinct stored ms h.1)

  file_body :
      (g : Gaps) (written : ℕ) (ms : List (Buckets d))
      → (drop header_size (write_snapshot d g written ms) ≡ write_shards d ms)
        × (ltb (length (write_snapshot d g written ms)) header_size ≡ false)
  unfolding write_snapshot write_header
  file_body g written ms =
      (refl, not_short header_size (write_snapshot d g written ms) (omega arith))

  load_accepts :
      (now written sum : ℕ) (file : Bytes)
      → ltb (length file) header_size ≡ false
      → Reads written sum (read_header file)
      → calculate_checksum (drop header_size file) ≡ sum
      → now ≤ written + 120000
      → load_snapshot d now file
        ≡ some (map (rebuild d now) (read_shards d shard_count (drop header_size file)))
  unfolding load_snapshot
  load_accepts now written sum file long r same fresh =
      let known : ltb_ℤ (pos written +ℤ pos 120000) (pos now) ≡ false = late written now fresh in
      rw long (
        rw r.magic (
          rw (bytes_eq_refl magic_text)
            (rw r.version (rw r.time (rw known (rw same (rw r.checksum (rw (equal sum) refl))))))))

  -- What was written less than two minutes ago is loaded: each shard is in order, and has the
  -- buckets it had, with the tokens they had and refilled now.
  pub load_snapshot-write_snapshot :
      (stored : IsStored d) (g : Gaps) (written now : ℕ) (ms : List (Buckets d))
      → written < 2 ^ 63
      → now ≤ written + 120000
      → length ms ≡ shard_count
      → All (FitsMap d stored) ms
      → (shards : List (Shard d)) × (load_snapshot d now (write_snapshot d g written ms)
          ≡ some shards)
        × All (IsShard d) shards
        × (map (λ s. s.buckets) shards ≡ map (refreshed d now) ms)
  load_snapshot-write_snapshot stored g written now ms small fresh whole fits =
      let (body, long) = file_body g written ms in
      let read : read_shards d shard_count (drop header_size (write_snapshot d g written ms)) ≡ ms =
        ap (read_shards d shard_count) body
        ∙ ap (λ n. read_shards d n (write_shards d ms)) (sym whole)
        ∙ read_shards-write_shards d stored ms fits in
      let (shards, buckets) = rebuilt now ms (FitsMap-Distinct stored ms fits) in
      (
        map (rebuild d now) ms,
        load_accepts now written (calculate_checksum (write_shards d ms))
              (write_snapshot d g written ms) long (file_header g written ms small)
              (ap calculate_checksum body) fresh
            ∙ ap (λ t. some (map (rebuild d now) t)) read,
        shards,
        buckets,
      )
