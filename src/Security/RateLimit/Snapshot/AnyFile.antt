-- ===== src/Security/RateLimit/Snapshot/AnyFile.antt =====
-- What any file at all can make of a limiter.
use asio_owen.Prelude.{
  ℕ, suc, zero, ◌≤◌, ltb, true, List, [], ◌∷◌, some, Bytes, bytes_eq, length, map, All, take, drop,
  ◌≡◌, refl, ap, sym, subst, ◌∙◌, arith, pos, ◌+ℤ◌, Option-cases, inl, inr, ◌⊎◌, ◌≤ℤ◌, Bool-cases,
}
use asio_owen.Security.RateLimit.{Doubles, TokenBucket, Shard, find_key}
use asio_owen.Security.RateLimit.Keys.{Distinct, map_keys, find_key-none}
use asio_owen.Security.RateLimit.Recent.{IsShard}
use asio_owen.Security.RateLimit.Limits.{shard_count}
use asio_owen.Security.RateLimit.Snapshot.{
  word_value, calculate_checksum, magic_text, header_size, read_header, Buckets, EntryRead, entry,
  short, read_entry, emplace, read_entries, read_shards, empty_maps, rebuild, load_snapshot,
}
use asio_owen.Security.RateLimit.Snapshot.Rebuilt.{rebuild-IsShard, Distinct-snoc, map_keys-append}

module _ (d : Doubles) where
  EntryRead-cases :
      (r : EntryRead d)
      → ((key : Bytes) × (b : TokenBucket d) × (rest : Bytes) × (r ≡ entry key b rest))
        ⊎ ((rest : Bytes) × (r ≡ short rest))
  EntryRead-cases (entry key b rest) = inl (key, b, rest, refl)
  EntryRead-cases (short rest) = inr (rest, refl)

  emplace-Distinct :
      (k : Bytes) (b : TokenBucket d) (m : Buckets d)
      → Distinct (map_keys m)
      → Distinct (map_keys (emplace d k b m))
  emplace-Distinct k b m h = elim (Option-cases (find_key k m)) [
    | inl e ↦ rw e (
        rw (map_keys-append d m ((k, b) ∷ []))
          (Distinct-snoc k (map_keys m) (find_key-none k m e) h))
    | inr (c, e) ↦ rw e h
  ]

  read_entries-Distinct :
      (n : ℕ) (ptr : Bytes) (m : Buckets d)
      → Distinct (map_keys m)
      → Distinct (map_keys (read_entries d n ptr m).0)
  unfolding read_entries
  read_entries-Distinct zero ptr m h = h
  read_entries-Distinct (suc n) [] m h = h
  read_entries-Distinct (suc n) (b ∷ ptr) m h = elim (EntryRead-cases (read_entry d (b ∷ ptr))) [
    | inl (key, bucket, rest, e) ↦
        rw (read_entries, e)
          (read_entries-Distinct n rest (emplace d key bucket m) (emplace-Distinct key bucket m h))
    | inr (rest, e) ↦ rw (read_entries, e) h
  ]

  abbrev AllDistinct : List (Buckets d) → Type 0
  AllDistinct ms = All (λ m. Distinct (map_keys m)) ms

  empty_maps-Distinct : (n : ℕ) → AllDistinct (empty_maps d n) × (length (empty_maps d n) ≡ n)
  empty_maps-Distinct zero = (tt, refl)
  empty_maps-Distinct (suc n) = let (a, b) = empty_maps-Distinct n in ((tt, a), ap suc b)

  read_shards-Distinct :
      (n : ℕ) (ptr : Bytes) → AllDistinct (read_shards d n ptr) × (length (read_shards d n ptr) ≡ n)
  unfolding read_shards
  read_shards-Distinct zero ptr = (tt, refl)
  read_shards-Distinct (suc n) ptr = elim (Bool-cases (ltb (length ptr) 4)) [
    | inl e ↦ rw e (empty_maps-Distinct (suc n))
    | inr e ↦
        let (a, b) =
          read_shards-Distinct n (read_entries d (word_value (take 4 ptr)) (drop 4 ptr) []).1 in
        rw e ((read_entries-Distinct (word_value (take 4 ptr)) (drop 4 ptr) [] tt, a), ap suc b)
  ]

  rebuilt :
      (now : ℕ) (ms : List (Buckets d))
      → AllDistinct ms
      → All (IsShard d) (map (rebuild d now) ms) × (length (map (rebuild d now) ms) ≡ length ms)
  rebuilt now [] h = (tt, refl)
  rebuilt now (m ∷ ms) h =
      let (a, b) = rebuilt now ms h.1 in (((rebuild-IsShard d now m h.0).0, a), ap suc b)

  loaded_shards :
      (now : ℕ) (file : Bytes) (shards : List (Shard d))
      → load_snapshot d now file ≡ some shards
      → shards ≡ map (rebuild d now) (read_shards d shard_count (drop header_size file))
  unfolding load_snapshot
  loaded_shards now file shards h = ground arith

  -- Whatever file is loaded, damaged or made up, the shards that come of it are in order and as
  -- many as there should be.
  pub load_snapshot-IsShard :
      (now : ℕ) (file : Bytes) (shards : List (Shard d))
      → load_snapshot d now file ≡ some shards
      → All (IsShard d) shards × (length shards ≡ shard_count)
  load_snapshot-IsShard now file shards h =
      let (distinct, count) = read_shards-Distinct shard_count (drop header_size file) in
      let (good, same) = rebuilt now (read_shards d shard_count (drop header_size file)) distinct in
      subst (λ t. All (IsShard d) t × (length t ≡ shard_count))
        (sym (loaded_shards now file shards h)) (good, same ∙ count)

  -- A file is loaded only if its header is whole and right, it is no older than two minutes, and
  -- its checksum is that of the rest.
  pub load_snapshot-accepted :
      (now : ℕ) (file : Bytes) (shards : List (Shard d))
      → load_snapshot d now file ≡ some shards
      → (header_size ≤ length file)
        × (bytes_eq (read_header file).magic magic_text ≡ true)
        × ((read_header file).version ≡ 1)
        × (pos now ≤ℤ (read_header file).written_at_ms +ℤ pos 120000)
        × (calculate_checksum (drop header_size file) ≡ (read_header file).checksum)
  unfolding load_snapshot
  load_snapshot-accepted now file shards h = ground arith
