-- ===== src/Security/RateLimit/Snapshot/Entries.antt =====
-- The entries of a snapshot, read as they were written.
use asio_owen.Prelude.{
  ℕ, suc, ◌<◌, ◌^◌, false, List, [], ◌∷◌, ◌++◌, append_assoc, append-nil, none, Bytes, length,
  length-append, drop, All, ◌≡◌, refl, ap, sym, ◌∙◌, arith, bytes_eq, bytes_eq_iff, subst,
}
use asio_owen.Security.RateLimit.{Doubles, TokenBucket, find_key}
use asio_owen.Security.RateLimit.Keys.{has, Distinct, map_keys}
use asio_owen.Security.RateLimit.Snapshot.{
  word, word_value, Buckets, write_entry, write_entries, write_shards, entry, read_numbers,
  read_key, read_entry, emplace, emplaced, read_entries, read_shards,
}
use asio_owen.Security.RateLimit.Snapshot.Words.{
  word_value-word, length-word, take-append, drop-append, not_short,
}

-- A double is eight bytes in memory, and is what they are.
pub record IsStored (d : Doubles) : Type 0 where
  pub size : (x : d.Real) → length (d.to_bytes x) ≡ 8
  pub same : (x : d.Real) → d.of_bytes (d.to_bytes x) ≡ x

module _ (d : Doubles) (stored : IsStored d) where
  abbrev pub Fits : Bytes × TokenBucket d → Type 0
  Fits e = (length e.0 < 2 ^ 32) × (e.1.last_refill_ms < 2 ^ 64)

  read_numbers-write :
      (key : Bytes) (w x rest : Bytes)
      → length w ≡ 8
      → length x ≡ 8
      → read_numbers d key (w ++ (x ++ rest))
        ≡ entry key (record { last_refill_ms = word_value w; tokens = d.of_bytes x }) rest
  unfolding read_numbers
  read_numbers-write key w x rest h k =
      rw
        (not_short 16 (w ++ (x ++ rest))
          (omega (arith, length-append w (x ++ rest), length-append x rest)))
        (rw (take-append 8 w (x ++ rest) h) (
          rw (drop-append 8 w (x ++ rest) h) (
            rw (take-append 8 x rest k) (
              ap (entry key (record { last_refill_ms = word_value w; tokens = d.of_bytes x })) (
                ap (drop 16) (sym (append_assoc w x rest))
                ∙ drop-append 16 (w ++ x) rest (omega (arith, length-append w x)))))))

  read_key-write :
      (key text : Bytes) → read_key d (length key) (key ++ text) ≡ read_numbers d key text
  unfolding read_key
  read_key-write key text =
      rw (not_short (length key) (key ++ text) (omega (arith, length-append key text))) (
        ap (λ k. read_numbers d k (drop (length key) (key ++ text)))
          (take-append (length key) key text refl)
        ∙ ap (read_numbers d key) (drop-append (length key) key text refl))

  read_length :
      (w text : Bytes) → length w ≡ 4 → read_entry d (w ++ text) ≡ read_key d (word_value w) text
  unfolding read_entry
  read_length w text h = rw (not_short 4 (w ++ text) (omega (arith, length-append w text))) (
      ap (λ k. read_key d (word_value k) (drop 4 (w ++ text))) (take-append 4 w text h)
      ∙ ap (read_key d (word_value w)) (drop-append 4 w text h))

  write_entry_lem :
      (e : Bytes × TokenBucket d) (rest : Bytes)
      → write_entry d e ++ rest
        ≡ word 4 (length e.0)
          ++ (e.0 ++ (word 8 e.1.last_refill_ms ++ (d.to_bytes e.1.tokens ++ rest)))
  unfolding write_entry
  write_entry_lem (key, b) rest = simp append_assoc

  read_entry-write_entry :
      (e : Bytes × TokenBucket d) (rest : Bytes)
      → Fits e
      → read_entry d (write_entry d e ++ rest) ≡ entry e.0 e.1 rest
  read_entry-write_entry (key, b) rest (small, old) =
      ap (read_entry d) (write_entry_lem (key, b) rest)
      ∙ read_length (word 4 (length key)) _ (length-word 4 (length key))
      ∙ ap (λ n. read_key d n (key ++ (word 8 b.last_refill_ms ++ (d.to_bytes b.tokens ++ rest))))
          (word_value-word 4 (length key) small)
      ∙ read_key-write key _
      ∙ read_numbers-write key (word 8 b.last_refill_ms) (d.to_bytes b.tokens) rest
          (length-word 8 b.last_refill_ms) (stored.size b.tokens)
      ∙ ap
          (λ n.
            entry key (record { last_refill_ms = n; tokens = d.of_bytes (d.to_bytes b.tokens) })
              rest)
          (word_value-word 8 b.last_refill_ms old)
      ∙ ap (λ t. entry key (record { last_refill_ms = b.last_refill_ms; tokens = t }) rest)
          (stored.same b.tokens)

  has-later :
      (j k : Bytes) (b : TokenBucket d) (done more : Buckets d)
      → has j (map_keys (done ++ (k, b) ∷ more)) ≡ false
      → bytes_eq j k ≡ false
  has-later j k b [] more h = ground arith
  has-later j k b ((i, c) ∷ done) more h = has-later j k b done more (ground arith)

  absent :
      (k : Bytes) (b : TokenBucket d) (done more : Buckets d)
      → Distinct (map_keys (done ++ (k, b) ∷ more))
      → find_key k done ≡ none
  absent k b [] more h = refl
  absent k b ((j, c) ∷ done) more h = ground (
    arith,
    absent k b done more h.1,
    has-later j k b done more,
    bytes_eq_iff k j,
    bytes_eq_iff j k,
  )

  no_entry :
      (key : Bytes) (b : TokenBucket d) (rest : Bytes) → read_entry d [] ≡ entry key b rest → ⊥
  unfolding read_entry
  no_entry key b rest h = cc

  read_entries_step :
      (n : ℕ) (text : Bytes) (done : Buckets d) (key : Bytes) (b : TokenBucket d) (rest : Bytes)
      → read_entry d text ≡ entry key b rest
      → read_entries d (suc n) text done ≡ read_entries d n rest (emplace d key b done)
  unfolding read_entries
  read_entries_step n [] done key b rest h = absurd (no_entry key b rest h)
  read_entries_step n (c ∷ text) done key b rest h = rw (read_entries, h) refl

  read_entries-write_entries :
      (m : Buckets d) (rest : Bytes) (done : Buckets d)
      → All Fits m
      → Distinct (map_keys (done ++ m))
      → read_entries d (length m) (write_entries d m ++ rest) done ≡ (done ++ m, rest)
  unfolding read_entries write_entries
  read_entries-write_entries [] rest done f h = ap (λ t. (t, rest)) (sym (append-nil done))
  read_entries-write_entries ((k, b) ∷ m) rest done f h =
      ap (λ t. read_entries d (suc (length m)) t done)
        (append_assoc (write_entry d (k, b)) (write_entries d m) rest)
      ∙ read_entries_step (length m) (write_entry d (k, b) ++ (write_entries d m ++ rest)) done k b
          (write_entries d m ++ rest)
          (read_entry-write_entry (k, b) (write_entries d m ++ rest) f.0)
      ∙ ap (λ o. read_entries d (length m) (write_entries d m ++ rest) (emplaced d o k b done))
          (absent k b done m h)
      ∙ read_entries-write_entries m rest (done ++ (k, b) ∷ []) f.1
          (subst (λ t. Distinct (map_keys t)) (sym (append_assoc done ((k, b) ∷ []) m)) h)
      ∙ ap (λ t. (t, rest)) (append_assoc done ((k, b) ∷ []) m)

  read_shards_step :
      (n : ℕ) (w text : Bytes) (m : Buckets d) (rest : Bytes)
      → length w ≡ 4
      → read_entries d (word_value w) text [] ≡ (m, rest)
      → read_shards d (suc n) (w ++ text) ≡ m ∷ read_shards d n rest
  unfolding read_shards
  read_shards_step n w text m rest h e =
      rw (not_short 4 (w ++ text) (omega (arith, length-append w text)))
        (rw (take-append 4 w text h) (rw (drop-append 4 w text h) (rw e refl)))

  read_none : read_shards d 0 (write_shards d []) ≡ []
  unfolding read_shards write_shards
  read_none = refl

  write_shards_lem :
      (m : Buckets d) (ms : List (Buckets d))
      → write_shards d (m ∷ ms) ≡ word 4 (length m) ++ (write_entries d m ++ write_shards d ms)
  unfolding write_shards
  write_shards_lem m ms = refl

  abbrev pub FitsMap : Buckets d → Type 0
  FitsMap m = (length m < 2 ^ 32) × All Fits m × Distinct (map_keys m)

  -- The maps of a file are read as they were written.
  pub read_shards-write_shards :
      (ms : List (Buckets d)) → All FitsMap ms → read_shards d (length ms) (write_shards d ms) ≡ ms
  read_shards-write_shards [] h = read_none
  read_shards-write_shards (m ∷ ms) ((small, fits, distinct), h) =
      ap (read_shards d (suc (length ms))) (write_shards_lem m ms)
      ∙ read_shards_step (length ms) (word 4 (length m)) (write_entries d m ++ write_shards d ms) m
          (write_shards d ms) (length-word 4 (length m))
          (ap (λ n. read_entries d n (write_entries d m ++ write_shards d ms) [])
              (word_value-word 4 (length m) small)
            ∙ read_entries-write_entries m (write_shards d ms) [] fits distinct)
      ∙ ap (λ t. m ∷ t) (read_shards-write_shards ms h)
