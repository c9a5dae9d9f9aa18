-- ===== src/Security/RateLimit/Recent.antt =====
-- A shard of the rate limiter keeps one bucket for each of its most recent keys: its map, its list
-- and its index agree, and eviction takes the keys that were used longest ago.
use asio_owen.Prelude.{
  ℕ, suc, zero, ◌-◌, ◌≤◌, ◌<◌, ltb, ltb→lt, true, false, List, [], ◌∷◌, if◌then◌else◌, some, Bytes,
  bytes_eq, bytes_eq_iff, bytes_eq_refl, length, take, All, ◌≡◌, refl, ap, ◌∙◌, sym, arith, inl,
  inr, Bool-cases,
}
use asio_owen.Security.RateLimit.{
  Doubles, Node, find_key, erase_key, last_key, drop_last, Shard, evict,
}
use asio_owen.Security.RateLimit.Keys.{
  has, remove, Distinct, has-remove, Distinct-remove, IsFalling, node_keys, index_of, map_keys,
  length-erase_key, map_keys-erase_key, find_key-erase_key_other,
}

last_key-some :
    (n : ℕ) (nodes : List Node)
    → length nodes ≡ suc n
    → (k : Bytes) × (last_key nodes ≡ some k) × (has k (node_keys nodes) ≡ true)
unfolding last_key
last_key-some n [] h = absurd (omega arith)
last_key-some n (m ∷ []) h = (m.key, refl, ground (arith, bytes_eq_refl m.key))
last_key-some n (m ∷ m' ∷ nodes) h =
    let (k, e, f) = last_key-some (length nodes) (m' ∷ nodes) refl in (k, e, ground (arith, f))

-- Dropping the last node is removing its key, since no other node has it.
drop_last-remove :
    (k : Bytes) (nodes : List Node)
    → Distinct (node_keys nodes)
    → last_key nodes ≡ some k
    → (node_keys (drop_last nodes) ≡ remove k (node_keys nodes))
      × (index_of (drop_last nodes) ≡ erase_key k (index_of nodes))
      × (has k (node_keys nodes) ≡ true)
unfolding last_key drop_last remove
drop_last-remove k [] d h = cc
drop_last-remove k (m ∷ []) d h = ground (arith, bytes_eq_iff k m.key)
drop_last-remove k (m ∷ m' ∷ nodes) d h =
    ground (arith, drop_last-remove k (m' ∷ nodes) d.1, bytes_eq_iff k m.key)

drop_last-take :
    (n : ℕ) (nodes : List Node)
    → length nodes ≡ suc n
    → node_keys (drop_last nodes) ≡ take n (node_keys nodes)
unfolding drop_last
drop_last-take n [] h = absurd (omega arith)
drop_last-take zero (m ∷ []) h = refl
drop_last-take (suc n) (m ∷ []) h = absurd (omega arith)
drop_last-take zero (m ∷ m' ∷ nodes) h = absurd (omega arith)
drop_last-take (suc n) (m ∷ m' ∷ nodes) h =
    ap (λ t. m.key ∷ t) (drop_last-take n (m' ∷ nodes) (omega arith))

All-drop_last :
    (top : ℕ) (nodes : List Node)
    → All (λ m. m.id < top) nodes
    → All (λ m. m.id < top) (drop_last nodes)
unfolding drop_last
All-drop_last top [] h = tt
All-drop_last top (m ∷ []) h = tt
All-drop_last top (m ∷ m' ∷ nodes) h = (h.0, All-drop_last top (m' ∷ nodes) h.1)

IsFalling-drop_last : (nodes : List Node) → IsFalling nodes → IsFalling (drop_last nodes)
unfolding drop_last
IsFalling-drop_last [] h = tt
IsFalling-drop_last (m ∷ []) h = tt
IsFalling-drop_last (m ∷ m' ∷ nodes) h =
    (All-drop_last m.id (m' ∷ nodes) h.0, IsFalling-drop_last (m' ∷ nodes) h.1)

take_shorter : (n m : ℕ) (ks : List Bytes) → n ≤ m → take n (take m ks) ≡ take n ks
take_shorter zero m ks h = refl
take_shorter (suc n) zero ks h = absurd (omega arith)
take_shorter (suc n) (suc m) [] h = refl
take_shorter (suc n) (suc m) (k ∷ ks) h = ap (λ t. k ∷ t) (take_shorter n m ks (omega arith))

take_all : (n : ℕ) (ks : List Bytes) → length ks ≤ n → take n ks ≡ ks
take_all zero [] h = refl
take_all (suc n) [] h = refl
take_all zero (k ∷ ks) h = absurd (omega arith)
take_all (suc n) (k ∷ ks) h = ap (λ t. k ∷ t) (take_all n ks (omega arith))

has-take : (k : Bytes) (n : ℕ) (ks : List Bytes) → has k (take n ks) ≡ true → has k ks ≡ true
has-take k zero ks h = cc
has-take k (suc n) [] h = cc
has-take k (suc n) (j ∷ ks) h = ground (arith, has-take k n ks)

pub length-node_keys : (nodes : List Node) → length (node_keys nodes) ≡ length nodes
length-node_keys [] = refl
length-node_keys (n ∷ nodes) = ap suc (length-node_keys nodes)

-- A key that is there when `k` is removed is another one.
other :
    (j k : Bytes) (ks : List Bytes)
    → Distinct ks
    → has j (remove k ks) ≡ true
    → bytes_eq j k ≡ false
other j k ks h there = ground (arith, has-remove j k ks h)

module _ (d : Doubles) where
  abbrev pub order : Shard d → List Bytes
  order s = node_keys s.lru_list

  -- The list, the index and the map hold the same keys, each once, and the index names the nodes.
  pub record IsShard (s : Shard d) : Type 0 where
    pub indexed : s.lru_index ≡ index_of s.lru_list
    pub fresh : All (λ n. n.id < s.next_id) s.lru_list
    pub falling : IsFalling s.lru_list
    pub distinct : Distinct (order s)
    pub once : Distinct (map_keys s.buckets)
    pub same : (k : Bytes) → has k (map_keys s.buckets) ≡ has k (order s)
    pub count : length s.buckets ≡ length s.lru_list

  -- A shard that had its last node and the bucket of its key dropped.
  abbrev without_last : Bytes → Shard d → Shard d
  without_last k s = record s {
    buckets = erase_key k s.buckets;
    lru_index = erase_key k s.lru_index;
    lru_list = drop_last s.lru_list;
  }

  length-drop_last :
      (n : ℕ) (nodes : List Node) → length nodes ≡ suc n → length (drop_last nodes) ≡ n
  unfolding drop_last
  length-drop_last n [] h = absurd (omega arith)
  length-drop_last n (m ∷ []) h = omega arith
  length-drop_last zero (m ∷ m' ∷ nodes) h = absurd (omega arith)
  length-drop_last (suc n) (m ∷ m' ∷ nodes) h = omega (arith, length-drop_last n (m' ∷ nodes))

  without_last-IsShard :
      (k : Bytes) (s : Shard d)
      → IsShard s
      → last_key s.lru_list ≡ some k
      → IsShard (without_last k s)
  without_last-IsShard k s v h =
      let (keys, index, there) = drop_last-remove k s.lru_list v.distinct h in
      let shorter = length-erase_key k s.buckets (v.same k ∙ there) in
      record {
        indexed = ap (erase_key k) v.indexed ∙ sym index;
        fresh = All-drop_last s.next_id s.lru_list v.fresh;
        falling = IsFalling-drop_last s.lru_list v.falling;
        distinct = rw keys (Distinct-remove k (order s) v.distinct);
        once = rw (map_keys-erase_key k s.buckets) (Distinct-remove k (map_keys s.buckets) v.once);
        same = λ j.
            ap (has j) (map_keys-erase_key k s.buckets)
            ∙ has-remove j k (map_keys s.buckets) v.once
            ∙ ap (λ b. if bytes_eq j k then false else b) (v.same j)
            ∙ sym (has-remove j k (order s) v.distinct)
            ∙ ap (has j) (sym keys);
        count = sym (
            length-drop_last (length (erase_key k s.buckets)) s.lru_list
              (omega (arith, shorter, v.count)));
      }

  pub length-order : (s : Shard d) → length (order s) ≡ length s.lru_list
  length-order s = length-node_keys s.lru_list

  -- A key that is left is not that of the last node.
  other_key :
      (top : ℕ) (k j : Bytes) (nodes : List Node) (ks : List Bytes)
      → Distinct (node_keys nodes)
      → last_key nodes ≡ some k
      → ks ≡ take top (node_keys (drop_last nodes))
      → has j ks ≡ true
      → bytes_eq j k ≡ false
  other_key top k j nodes ks distinct last recent found =
      let here = has-take j top (node_keys (drop_last nodes)) (ap (has j) (sym recent) ∙ found) in
      other j k (node_keys nodes) distinct
        (ap (has j) (sym (drop_last-remove k nodes distinct last).0) ∙ here)

  -- The loop ends by its test, with the most recent keys and their buckets.
  pub evict-recent :
      (fuel top : ℕ) (s : Shard d)
      → IsShard s
      → length s.buckets ≤ fuel
      → (s' : Shard d) × (evict d fuel top s ≡ some s')
        × IsShard s'
        × (order s' ≡ take top (order s))
        × ((k : Bytes) → has k (order s') ≡ true → find_key k s'.buckets ≡ find_key k s.buckets)
  unfolding evict
  evict-recent zero top s v h = (
    s,
    refl,
    v,
    sym (take_all top (order s) (omega (arith, length-order s, v.count))),
    λ k there. refl,
  )
  evict-recent (suc fuel) top s v h = elim (Bool-cases (ltb top (length s.buckets))) [
    | inl over ↦
        let large = ltb→lt top (length s.buckets) over in
        let n = length s.buckets - 1 in
        let size : length s.lru_list ≡ suc n = omega (arith, v.count, large) in
        let (k, e, there) = last_key-some n s.lru_list size in
        let (s', run, v', recent, kept) =
          evict-recent fuel top (without_last k s) (without_last-IsShard k s v e)
            (omega (arith, h, length-erase_key k s.buckets (v.same k ∙ there))) in
        (
          s',
          rw over (rw e run),
          v',
          recent
              ∙ ap (take top) (drop_last-take n s.lru_list size)
              ∙ take_shorter top n (order s) (omega arith),
          λ j found.
              kept j found
              ∙ find_key-erase_key_other j k s.buckets
                  (other_key top k j s.lru_list (order s') v.distinct e recent found),
        )
    | inr small ↦ (
      s,
      rw small refl,
      v,
      sym (take_all top (order s) (ground (arith, length-order s, v.count))),
      λ k there. refl,
    )
  ]
