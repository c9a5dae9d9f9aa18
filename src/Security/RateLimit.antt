-- ===== src/Security/RateLimit.antt =====
-- `src/security/rate_limiter.hpp`: one token bucket, and a shard of them with its list of recent
-- keys. A shard is used under its mutex, so that an operation on it is a function.
pub mod Keys
pub mod Recent
pub mod Checks
pub mod Runs
pub mod Global
pub mod Limits
pub mod Chained
pub mod Snapshot
use asio_owen.Prelude.{
  ℕ, suc, zero, ◌+◌, ◌==◌, ltb, Bool, true, false, List, [], ◌∷◌, if◌then◌else◌, Option, some, none,
  Bytes, bytes_eq, length, ℤ, pos, sub_ℕ,
}
use asio_owen.Security.Chain.{Decision}

-- What the code uses of `double`. Its arithmetic rounds, so that little of it is relied on.
pub record Doubles : Type 1 where
  pub Real : Type 0
  pub of_int : ℤ → Real
  pub le : Real → Real → Bool
  pub lt : Real → Real → Bool
  pub add : Real → Real → Real
  pub sub : Real → Real → Real
  pub mul : Real → Real → Real
  pub div : Real → Real → Real
  -- `static_cast<int>(std::ceil(x))`, of an `x` that is not negative.
  pub ceil_int : Real → ℕ
  -- `static_cast<int64_t>(x)`.
  pub trunc : Real → ℤ
  -- The eight bytes of a value in memory, and back.
  pub to_bytes : Real → Bytes
  pub of_bytes : Bytes → Real

abbrev pub allowed_now : Decision
allowed_now = record { allowed = true; retry_after_ms = 0 }

-- A node of the list of recent keys, with the name by which an iterator points at it.
pub record Node : Type 0 where
  pub id : ℕ
  pub key : Bytes

-- A map with keys of text, in the order in which it happens to be walked.
module _ {ℓ} {V : Type ℓ} where
  abbrev pub find_key : Bytes → List (Bytes × V) → Option V
  find_key k [] = none
  find_key k ((j, v) ∷ m) = if bytes_eq k j then some v else find_key k m

  abbrev pub erase_key : Bytes → List (Bytes × V) → List (Bytes × V)
  erase_key k [] = []
  erase_key k ((j, v) ∷ m) = let rest = (j, v) ∷ erase_key k m in if bytes_eq k j then m else rest

  -- `m[k] = v` where the key is there, and nothing where it is not.
  abbrev pub update_key : Bytes → V → List (Bytes × V) → List (Bytes × V)
  update_key k v [] = []
  update_key k v ((j, w) ∷ m) =
      let rest = (j, w) ∷ update_key k v m in if bytes_eq k j then (j, v) ∷ m else rest

-- `lru_list.erase(it)`.
unfoldable pub erase_node : ℕ → List Node → List Node
erase_node id [] = []
erase_node id (n ∷ nodes) = let rest = n ∷ erase_node id nodes in if n.id == id then nodes else rest

abbrev pub unlink : Option ℕ → List Node → List Node
unlink none nodes = nodes
unlink (some id) nodes = erase_node id nodes

unfoldable pub last_key : List Node → Option Bytes
last_key [] = none
last_key (n ∷ []) = some n.key
last_key (n ∷ m ∷ nodes) = last_key (m ∷ nodes)

unfoldable pub drop_last : List Node → List Node
drop_last [] = []
drop_last (n ∷ []) = []
drop_last (n ∷ m ∷ nodes) = n ∷ drop_last (m ∷ nodes)

module _ (d : Doubles) where
  open d use {Real, of_int, le, lt, add, sub, mul, div, ceil_int}

  pub record TokenBucket : Type 0 where
    pub last_refill_ms : ℕ
    pub tokens : Real

  abbrev pub zero_real : Real
  zero_real = of_int (pos 0)

  abbrev pub one_real : Real
  one_real = of_int (pos 1)

  -- `std::min`.
  abbrev pub min_real : Real → Real → Real
  min_real a b = if lt b a then b else a

  unfoldable pub refilled : TokenBucket → Real → Real → ℕ → Real
  refilled b rate burst now =
      min_real burst
        (add b.tokens (div (mul (of_int (sub_ℕ now b.last_refill_ms)) rate) (of_int (pos 1000))))

  unfoldable pub allow : TokenBucket → Real → Real → ℕ → Decision × TokenBucket
  unfolding refilled
  allow b rate burst now =
      if le rate zero_real
      then (allowed_now, b)
      else (let tokens' = refilled b rate burst now in
          if le one_real tokens'
          then (allowed_now, record { last_refill_ms = now; tokens = sub tokens' one_real })
          else (
            record {
              allowed = false;
              retry_after_ms = ceil_int (mul (div (sub one_real tokens') rate) (of_int (pos 1000)));
            },
            record { last_refill_ms = now; tokens = tokens' },
          ))

  pub record Shard : Type 0 where
    pub buckets : List (Bytes × TokenBucket)
    pub lru_list : List Node
    pub lru_index : List (Bytes × ℕ)
    -- The name of the next node.
    pub next_id : ℕ

  abbrev pub new_bucket : TokenBucket
  new_bucket = record { last_refill_ms = 0; tokens = zero_real }

  abbrev pub with_bucket :
      Option TokenBucket → Bytes → List (Bytes × TokenBucket) → List (Bytes × TokenBucket)
  with_bucket none k m = (k, new_bucket) ∷ m
  with_bucket (some b) k m = m

  -- `s.buckets[key]`, which makes a bucket where there is none.
  abbrev pub ensure_bucket : Bytes → List (Bytes × TokenBucket) → List (Bytes × TokenBucket)
  ensure_bucket k m = with_bucket (find_key k m) k m

  unfoldable pub lru_touch : Bytes → Shard → Shard
  unfolding erase_node
  lru_touch key s = record s {
    lru_list = record { id = s.next_id; key = key } ∷ unlink (find_key key s.lru_index) s.lru_list;
    lru_index = (key, s.next_id) ∷ erase_key key s.lru_index;
    next_id = s.next_id + 1;
  }

  -- The loop. `none` is the last item of an empty list, which is undefined.
  unfoldable pub evict : ℕ → ℕ → Shard → Option Shard
  unfolding last_key drop_last
  evict zero max_buckets s = some s
  evict (suc fuel) max_buckets s =
      let over : Option Shard = elim (last_key s.lru_list) [
        | none ↦ none
        | some k ↦ evict fuel max_buckets (record s {
          buckets = erase_key k s.buckets;
          lru_index = erase_key k s.lru_index;
          lru_list = drop_last s.lru_list;
        })
      ] in
      if ltb max_buckets (length s.buckets) then over else some s

  unfoldable pub evict_if_needed : ℕ → Shard → Option Shard
  unfolding evict
  evict_if_needed max_buckets s = evict (length s.buckets) max_buckets s

  unfoldable pub allow_bucket :
      Bytes → Real → Real → ℕ → Shard → Option TokenBucket → Option (Decision × Shard)
  unfolding allow
  allow_bucket key rate burst now s none = none
  allow_bucket key rate burst now s (some b) = some (
    (allow b rate burst now).0,
    record s { buckets = update_key key (allow b rate burst now).1 s.buckets },
  )

  -- `allow(bucket, …)` through the reference that `s.buckets[key]` gave. `none` is a reference to
  -- a bucket that is gone, or undefined behaviour in the eviction.
  unfoldable pub allow_at : Bytes → Real → Real → ℕ → Option Shard → Option (Decision × Shard)
  unfolding allow_bucket
  allow_at key rate burst now none = none
  allow_at key rate burst now (some s) = allow_bucket key rate burst now s (find_key key s.buckets)

  unfoldable pub check_shard : ℕ → Bytes → Real → Real → ℕ → Shard → Option (Decision × Shard)
  unfolding lru_touch evict_if_needed allow_at
  check_shard max_buckets key rate burst now s =
      allow_at key rate (if lt zero_real burst then burst else rate) now (
        evict_if_needed max_buckets
          (lru_touch key (record s { buckets = ensure_bucket key s.buckets })))
