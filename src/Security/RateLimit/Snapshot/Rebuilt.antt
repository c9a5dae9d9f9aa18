-- ===== src/Security/RateLimit/Snapshot/Rebuilt.antt =====
-- The shards that are made of a loaded file.
use asio_owen.Prelude.{
  ℕ, ◌+◌, ◌<◌, false, ◌||◌, List, [], ◌∷◌, ◌++◌, append_assoc, append-nil, Bytes, length-append,
  map, All, All-imp, ◌≡◌, refl, ap, sym, ◌∙◌, arith, bytes_eq_iff,
}
use asio_owen.Security.RateLimit.{Doubles, TokenBucket, Shard, Node}
use asio_owen.Security.RateLimit.Keys.{has, Distinct, map_keys}
use asio_owen.Security.RateLimit.Recent.{IsShard, order}
use asio_owen.Security.RateLimit.Runs.{empty_shard, empty_shard-IsShard}
use asio_owen.Security.RateLimit.Snapshot.{Buckets, rebuild_from, rebuild}

has-append : (k : Bytes) (xs ys : List Bytes) → has k (xs ++ ys) ≡ (has k xs || has k ys)
has-append k [] ys = refl
has-append k (x ∷ xs) ys = ground (arith, has-append k xs ys)

pub Distinct-snoc :
    (k : Bytes) (xs : List Bytes) → has k xs ≡ false → Distinct xs → Distinct (xs ++ k ∷ [])
Distinct-snoc k [] h d = (refl, tt)
Distinct-snoc k (x ∷ xs) h d = (
  ground (arith, has-append x xs (k ∷ []), bytes_eq_iff x k, bytes_eq_iff k x),
  Distinct-snoc k xs (ground arith) d.1,
)

module _ (d : Doubles) where
  pub map_keys-append : (m n : Buckets d) → map_keys (m ++ n) ≡ map_keys m ++ map_keys n
  map_keys-append [] n = refl
  map_keys-append (e ∷ m) n = ap (λ t. e.0 ∷ t) (map_keys-append m n)

  -- The bucket with its key, refilled at a time.
  abbrev pub refreshed : ℕ → Buckets d → Buckets d
  refreshed now = map (λ e. (e.0, record e.1 { last_refill_ms = now }))

  abbrev pushed : ℕ → Bytes → TokenBucket d → Shard d → Shard d
  pushed now k b s = record s {
    buckets = s.buckets ++ (k, record b { last_refill_ms = now }) ∷ [];
    lru_list = record { id = s.next_id; key = k } ∷ s.lru_list;
    lru_index = (k, s.next_id) ∷ s.lru_index;
    next_id = s.next_id + 1;
  }

  pushed-IsShard :
      (now : ℕ) (k : Bytes) (b : TokenBucket d) (s : Shard d)
      → has k (order d s) ≡ false
      → IsShard d s
      → IsShard d (pushed now k b s)
  pushed-IsShard now k b s new v =
      let keys = map_keys-append s.buckets ((k, record b { last_refill_ms = now }) ∷ []) in
      record {
        indexed = ap (λ t. (k, s.next_id) ∷ t) v.indexed;
        fresh = (
          omega arith,
          All-imp (λ (n : Node). n.id < s.next_id) (λ n. n.id < s.next_id + 1) (λ n h. omega arith)
              s.lru_list v.fresh,
        );
        falling = (v.fresh, v.falling);
        distinct = (new, v.distinct);
        once = rw keys (Distinct-snoc k (map_keys s.buckets) (v.same k ∙ new) v.once);
        same = λ j. rw keys (ground (arith, has-append j (map_keys s.buckets) (k ∷ []), v.same j));
        count = omega (
          arith,
          v.count,
          length-append {0} s.buckets ((k, record b { last_refill_ms = now }) ∷ []),
        );
      }

  abbrev Apart : List Bytes → Buckets d → Type 0
  Apart ks m = All (λ e. has e.0 ks ≡ false) m × Distinct (map_keys m)

  still_apart :
      (k : Bytes) (ks : List Bytes) (m : Buckets d)
      → has k (map_keys m) ≡ false
      → All (λ e. has e.0 ks ≡ false) m
      → All (λ e. has e.0 (k ∷ ks) ≡ false) m
  still_apart k ks [] h a = tt
  still_apart k ks ((j, b) ∷ m) h a =
      (ground (arith, bytes_eq_iff j k, bytes_eq_iff k j), still_apart k ks m (ground arith) a.1)

  rebuild_from-IsShard :
      (now : ℕ) (m : Buckets d) (s : Shard d)
      → Apart (order d s) m
      → IsShard d s
      → IsShard d (rebuild_from d now m s)
        × ((rebuild_from d now m s).buckets ≡ s.buckets ++ refreshed now m)
  unfolding rebuild_from
  rebuild_from-IsShard now [] s a v = (v, sym (append-nil s.buckets))
  rebuild_from-IsShard now ((k, b) ∷ m) s a v =
      let (v', e) =
        rebuild_from-IsShard now m (pushed now k b s)
          (still_apart k (order d s) m a.1.0 a.0.1, a.1.1) (pushed-IsShard now k b s a.0.0 v) in
      (
        v',
        e ∙ append_assoc s.buckets ((k, record b { last_refill_ms = now }) ∷ []) (refreshed now m),
      )

  apart_none : (m : Buckets d) → All (λ e. has e.0 [] ≡ false) m
  apart_none [] = tt
  apart_none (e ∷ m) = (refl, apart_none m)

  -- A loaded map becomes a shard in order that has its buckets, each refilled now and with the
  -- tokens it had.
  pub rebuild-IsShard :
      (now : ℕ) (m : Buckets d)
      → Distinct (map_keys m)
      → IsShard d (rebuild d now m) × ((rebuild d now m).buckets ≡ refreshed now m)
  unfolding rebuild
  rebuild-IsShard now m h =
      rebuild_from-IsShard now m (empty_shard d) (apart_none m, h) (empty_shard-IsShard d)
