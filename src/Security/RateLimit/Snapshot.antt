-- ===== src/Security/RateLimit/Snapshot.antt =====
-- The snapshot file of `src/security/rate_limiter.hpp`, written and loaded. Numbers stand in it as
-- they do in memory, the lowest byte first. Opening and renaming files is left out: what is modelled
-- are the bytes that are written, and what is made of the bytes that are read.
pub mod Words
pub mod Entries
pub mod RoundTrip
pub mod Rebuilt
pub mod AnyFile
use asio_owen.Prelude.{
  ℕ, suc, zero, ◌+◌, ◌*◌, ◌/◌, ◌%◌, ◌^◌, ◌==◌, ltb, Bool, true, false, not, ◌||◌, List, [], ◌∷◌,
  ◌++◌, if◌then◌else◌, Option, some, none, Bytes, codes, bytes_eq, length, take, drop, map, ℤ, pos,
  negsuc, ◌+ℤ◌, ltb_ℤ, ◌-◌,
}
use Prim.Native.Nat.{bit_xor}
use asio_owen.Security.RateLimit.{Doubles, TokenBucket, Shard, Node, find_key}
use asio_owen.Security.RateLimit.Limits.{Config, RateLimiter, shard_count}

-- The `n` low bytes of a word_value.
unfoldable pub word : ℕ → ℕ → Bytes
word zero v = []
word (suc n) v = (v % 256) ∷ word n (v / 256)

-- What `memcpy` reads from these bytes.
unfoldable pub word_value : Bytes → ℕ
word_value [] = 0
word_value (b ∷ bytes) = b + 256 * word_value bytes

abbrev pub hash_step : ℕ → ℕ → ℕ
hash_step hash byte = bit_xor hash byte * 16777619 % 2 ^ 32

-- FNV-1a.
unfoldable pub checksum_from : ℕ → Bytes → ℕ
checksum_from hash [] = hash
checksum_from hash (b ∷ bytes) = checksum_from (hash_step hash b) bytes

abbrev pub calculate_checksum : Bytes → ℕ
calculate_checksum bytes = checksum_from 2166136261 bytes

pub record SnapshotHeader : Type 0 where
  pub magic : Bytes
  pub version : ℕ
  pub checksum : ℕ
  pub written_at_ms : ℤ
  pub total_buckets : ℕ

abbrev pub magic_text : Bytes
magic_text = codes "RATE_LIMIT"

-- An `int64_t` as its 64 bits, and back.
abbrev pub int_bits : ℤ → ℕ
int_bits (pos n) = n
int_bits (negsuc n) = 2 ^ 64 - 1 - n

abbrev pub signed : ℕ → ℤ
signed v = if ltb v (2 ^ 63) then pos v else negsuc (2 ^ 64 - 1 - v)

-- The bytes that the compiler leaves out before the version and before the time, to align them.
-- They have whatever word_value the memory had.
pub record Gaps : Type 0 where
  pub g0 : ℕ
  pub g1 : ℕ
  pub g2 : ℕ
  pub g3 : ℕ
  pub g4 : ℕ
  pub g5 : ℕ

unfoldable pub write_header : Gaps → SnapshotHeader → Bytes
unfolding word
write_header g h =
    h.magic
    ++ (g.g0
        ∷ g.g1
        ∷ (word 4 h.version
            ++ (word 4 h.checksum
                ++ (g.g2
                    ∷ g.g3
                    ∷ g.g4
                    ∷ g.g5
                    ∷ (word 8 (int_bits h.written_at_ms) ++ word 8 h.total_buckets)))))

abbrev pub header_size : ℕ
header_size = 40

unfoldable pub read_header : Bytes → SnapshotHeader
unfolding word_value
read_header file = record {
  magic = take 10 file;
  version = word_value (take 4 (drop 12 file));
  checksum = word_value (take 4 (drop 16 file));
  written_at_ms = signed (word_value (take 8 (drop 24 file)));
  total_buckets = word_value (take 8 (drop 32 file));
}

module _ (d : Doubles) where
  abbrev pub Buckets : Type 0
  Buckets = List (Bytes × TokenBucket d)

  unfoldable pub write_entry : Bytes × TokenBucket d → Bytes
  unfolding word
  write_entry (key, b) =
      word 4 (length key) ++ (key ++ (word 8 b.last_refill_ms ++ d.to_bytes b.tokens))

  unfoldable pub write_entries : Buckets → Bytes
  write_entries [] = []
  write_entries (e ∷ m) = write_entry e ++ write_entries m

  unfoldable pub write_shards : List Buckets → Bytes
  unfolding word
  write_shards [] = []
  write_shards (m ∷ shards) = word 4 (length m) ++ (write_entries m ++ write_shards shards)

  abbrev pub total_of : List Buckets → ℕ
  total_of [] = 0
  total_of (m ∷ shards) = length m + total_of shards

  unfoldable pub write_snapshot : Gaps → ℕ → List Buckets → Bytes
  unfolding write_shards write_header checksum_from
  write_snapshot g now shards =
      write_header g (record {
        magic = magic_text;
        version = 1;
        checksum = calculate_checksum (write_shards shards);
        written_at_ms = pos now;
        total_buckets = total_of shards;
      })
      ++ write_shards shards

  -- One round of the inner loop: an entry and where the pointer is after it, or where it is when the
  -- bytes run out.
  pub data EntryRead : Type 0 where
    entry : Bytes → TokenBucket d → Bytes → EntryRead
    short : Bytes → EntryRead

  unfoldable pub read_numbers : Bytes → Bytes → EntryRead
  unfolding word_value
  read_numbers key ptr =
      if ltb (length ptr) 16
      then short ptr
      else entry key
          (record {
            last_refill_ms = word_value (take 8 ptr);
            tokens = d.of_bytes (take 8 (drop 8 ptr));
          })
          (drop 16 ptr)

  unfoldable pub read_key : ℕ → Bytes → EntryRead
  unfolding read_numbers
  read_key key_len ptr =
      if ltb (length ptr) key_len
      then short ptr
      else read_numbers (take key_len ptr) (drop key_len ptr)

  unfoldable pub read_entry : Bytes → EntryRead
  unfolding read_key word_value
  read_entry ptr =
      if ltb (length ptr) 4 then short ptr else read_key (word_value (take 4 ptr)) (drop 4 ptr)

  -- `emplace`, which leaves a key that is there as it is.
  abbrev pub emplaced : Option (TokenBucket d) → Bytes → TokenBucket d → Buckets → Buckets
  emplaced none k b m = m ++ (k, b) ∷ []
  emplaced (some c) k b m = m

  abbrev pub emplace : Bytes → TokenBucket d → Buckets → Buckets
  emplace k b m = emplaced (find_key k m) k b m

  -- The inner loop, over the rounds that the count leaves.
  unfoldable pub read_entries : ℕ → Bytes → Buckets → Buckets × Bytes
  read_entries zero ptr m = (m, ptr)
  read_entries (suc n) [] m = (m, [])
  read_entries (suc n) (b ∷ ptr) m = elim (read_entry (b ∷ ptr)) [
    | entry key bucket rest ↦ read_entries n rest (emplace key bucket m)
    | short rest ↦ (m, rest)
  ]

  abbrev pub empty_maps : ℕ → List Buckets
  empty_maps zero = []
  empty_maps (suc n) = [] ∷ empty_maps n

  -- The outer loop, over the shards that are left.
  unfoldable pub read_shards : ℕ → Bytes → List Buckets
  unfolding word_value
  read_shards zero ptr = []
  read_shards (suc n) ptr =
      let (m, rest) = read_entries (word_value (take 4 ptr)) (drop 4 ptr) [] in
      let more = m ∷ read_shards n rest in if ltb (length ptr) 4 then empty_maps (suc n) else more

  -- The loop that puts the buckets of a map into a shard, all refilled now.
  unfoldable pub rebuild_from : ℕ → Buckets → Shard d → Shard d
  rebuild_from now [] s = s
  rebuild_from now ((k, b) ∷ m) s = rebuild_from now m (record s {
    buckets = s.buckets ++ (k, record b { last_refill_ms = now }) ∷ [];
    lru_list = record { id = s.next_id; key = k } ∷ s.lru_list;
    lru_index = (k, s.next_id) ∷ s.lru_index;
    next_id = s.next_id + 1;
  })

  unfoldable pub rebuild : ℕ → Buckets → Shard d
  unfolding rebuild_from
  rebuild now m =
      rebuild_from now m (record { buckets = []; lru_list = []; lru_index = []; next_id = 0 })

  -- The shards that a file gives at a time, if it is accepted.
  unfoldable pub load_snapshot : ℕ → Bytes → Option (List (Shard d))
  unfolding rebuild ◌+ℤ◌
  load_snapshot now file =
      if ltb (length file) header_size
      then none
      else if not (bytes_eq (read_header file).magic magic_text)
      then none
      else if not ((read_header file).version == 1)
      then none
      else if ltb_ℤ ((read_header file).written_at_ms +ℤ pos (120 * 1000)) (pos now)
      then none
      else if not (calculate_checksum (drop header_size file) == (read_header file).checksum)
      then none
      else some (map (rebuild now) (read_shards shard_count (drop header_size file)))
