-- ===== src/Security/RateLimit/Checks.antt =====
-- A check of one key: `RateLimiter::check` under the mutex of the key's shard.
use asio_owen.Prelude.{
  ℕ, suc, zero, ◌+◌, ◌<◌, true, false, ◌||◌, List, [], ◌∷◌, if◌then◌else◌, Option, some, none,
  Bytes, bytes_eq, bytes_eq_iff, bytes_eq_refl, length, take, All, All-imp, ◌≡◌, refl, ap, ◌∙◌, sym,
  arith, subst, inl, inr, Option-cases,
}
use asio_owen.Security.Chain.{Decision}
use asio_owen.Security.RateLimit.{
  Doubles, TokenBucket, Node, find_key, erase_key, update_key, Shard, new_bucket, ensure_bucket,
  unlink, lru_touch, evict_if_needed, allow_at, allow_bucket, allow, check_shard, zero_real,
}
use asio_owen.Security.RateLimit.Keys.{
  has, remove, Distinct, has-remove, Distinct-remove, length-remove, remove_absent, IsFalling,
  node_keys, index_of, map_keys, map_keys-update_key, length-update_key, find_key-none,
  find_key-update_key, node_keys-erase_node, index_of-erase_node, IsFalling-erase_node,
  All-erase_node, erase_key_absent,
}
use asio_owen.Security.RateLimit.Recent.{IsShard, order, evict-recent, length-node_keys}

-- Without the node of the key, where there was one.
record Unlinked (key : Bytes) (top : ℕ) (nodes nodes' : List Node) : Type 0 where
  keys : node_keys nodes' ≡ remove key (node_keys nodes)
  index : index_of nodes' ≡ erase_key key (index_of nodes)
  fresh : All (λ n. n.id < top) nodes'
  falling : IsFalling nodes'

unlink-Unlinked :
    (key : Bytes) (top : ℕ) (nodes : List Node)
    → All (λ n. n.id < top) nodes
    → IsFalling nodes
    → Unlinked key top nodes (unlink (find_key key (index_of nodes)) nodes)
unlink-Unlinked key top nodes fresh falling = elim (Option-cases (find_key key (index_of nodes))) [
  | inl e ↦ rw e (record {
    keys = sym (remove_absent key (node_keys nodes) (erase_key_absent key nodes e).1);
    index = sym (erase_key_absent key nodes e).0;
    fresh = fresh;
    falling = falling;
  })
  | inr (id, e) ↦ rw e (record {
    keys = node_keys-erase_node key nodes id falling e;
    index = index_of-erase_node key nodes id falling e;
    fresh = All-erase_node top id nodes fresh;
    falling = IsFalling-erase_node id nodes falling;
  })
]

front : (k : Bytes) (top : ℕ) (ks : List Bytes) → 0 < top → has k (take top (k ∷ ks)) ≡ true
front k zero ks h = absurd (omega arith)
front k (suc top) ks h = rw (bytes_eq_refl k) refl

module _ (d : Doubles) where
  abbrev pub or_new : Option (TokenBucket d) → TokenBucket d
  or_new none = new_bucket d
  or_new (some b) = b

  abbrev pub bucket_of : Bytes → Shard d → TokenBucket d
  bucket_of k s = or_new (find_key k s.buckets)

  there :
      (k : Bytes) (b : TokenBucket d) (m : List (Bytes × TokenBucket d))
      → find_key k m ≡ some b
      → has k (map_keys m) ≡ true
  there k b [] h = cc
  there k b ((j, c) ∷ m) h = ground (arith, there k b m)

  has-ensure_bucket :
      (j k : Bytes) (m : List (Bytes × TokenBucket d))
      → has j (map_keys (ensure_bucket d k m)) ≡ (bytes_eq j k || has j (map_keys m))
  has-ensure_bucket j k m = elim (Option-cases (find_key k m)) [
    | inl e ↦ rw e refl
    | inr (b, e) ↦ rw e (ground (arith, there k b m e, bytes_eq_iff j k))
  ]

  Distinct-ensure_bucket :
      (k : Bytes) (m : List (Bytes × TokenBucket d))
      → Distinct (map_keys m)
      → Distinct (map_keys (ensure_bucket d k m))
  Distinct-ensure_bucket k m h = elim (Option-cases (find_key k m)) [
    | inl e ↦ rw e (find_key-none k m e, h)
    | inr (b, e) ↦ rw e h
  ]

  length-ensure_bucket :
      (k : Bytes) (m : List (Bytes × TokenBucket d))
      → length (ensure_bucket d k m) ≡ (if has k (map_keys m) then length m else length m + 1)
  length-ensure_bucket k m = elim (Option-cases (find_key k m)) [
    | inl e ↦ rw e (ground (arith, find_key-none k m e))
    | inr (b, e) ↦ rw e (ground (arith, there k b m e))
  ]

  abbrev touched : Bytes → Shard d → Shard d
  touched key s = lru_touch d key (record s { buckets = ensure_bucket d key s.buckets })

  unlinked :
      (key : Bytes) (s : Shard d)
      → IsShard d s
      → Unlinked key s.next_id s.lru_list (unlink (find_key key s.lru_index) s.lru_list)
  unlinked key s v =
      subst (λ m. Unlinked key s.next_id s.lru_list (unlink (find_key key m) s.lru_list))
        (sym v.indexed) (unlink-Unlinked key s.next_id s.lru_list v.fresh v.falling)

  touched-IsShard : (key : Bytes) (s : Shard d) → IsShard d s → IsShard d (touched key s)
  unfolding lru_touch
  touched-IsShard key s v =
      let u = unlinked key s v in
      record {
        indexed =
            ap (λ m. (key, s.next_id) ∷ erase_key key m) v.indexed
            ∙ ap (λ t. (key, s.next_id) ∷ t) (sym u.index);
        fresh = (omega arith, All-imp _ _ (λ n h. omega arith) _ u.fresh);
        falling = (u.fresh, u.falling);
        distinct = rw u.keys (
          ground (arith, has-remove key key (order d s) v.distinct, bytes_eq_refl key),
          Distinct-remove key (order d s) v.distinct,
        );
        once = Distinct-ensure_bucket key s.buckets v.once;
        same = λ j. rw u.keys (
            ground (
              arith,
              has-ensure_bucket j key s.buckets,
              has-remove j key (order d s) v.distinct,
              v.same j,
              bytes_eq_iff j key,
            ));
        count = ground (
          arith,
          length-ensure_bucket key s.buckets,
          length-remove key (order d s),
          remove_absent key (order d s),
          v.same key,
          v.count,
          length-node_keys s.lru_list,
          length-node_keys (unlink (find_key key s.lru_index) s.lru_list),
          ap length u.keys,
        );
      }

  order-touched :
      (key : Bytes) (s : Shard d)
      → IsShard d s
      → order d (touched key s) ≡ key ∷ remove key (order d s)
  unfolding lru_touch
  order-touched key s v = ap (λ t. key ∷ t) (unlinked key s v).keys

  find_key-ensure_bucket :
      (j k : Bytes) (s : Shard d)
      → find_key j (ensure_bucket d k s.buckets)
        ≡ (if bytes_eq j k then some (bucket_of k s) else find_key j s.buckets)
  find_key-ensure_bucket j k s = elim (Option-cases (find_key k s.buckets)) [
    | inl e ↦ rw e (ground (arith, bytes_eq_iff j k))
    | inr (b, e) ↦ rw e (ground (arith, bytes_eq_iff j k))
  ]

  -- What a check does to a shard.
  pub record Checked (top : ℕ) (key : Bytes) (result : Decision × TokenBucket d) (s : Shard d)
      (r : Decision × Shard d) : Type 0 where
    pub valid : IsShard d r.1
    pub decision : r.0 ≡ result.0
    pub own : find_key key r.1.buckets ≡ some result.1
    pub recent : order d r.1 ≡ take top (key ∷ remove key (order d s))
    pub others :
        (j : Bytes)
        → bytes_eq j key ≡ false
        → has j (order d r.1) ≡ true
        → find_key j r.1.buckets ≡ find_key j s.buckets

  update-Checked :
      (top : ℕ) (key : Bytes) (result : Decision × TokenBucket d) (s s' : Shard d)
      → IsShard d s'
      → has key (order d s') ≡ true
      → order d s' ≡ take top (key ∷ remove key (order d s))
      → ((j : Bytes)
          → bytes_eq j key ≡ false
          → has j (order d s') ≡ true
          → find_key j s'.buckets ≡ find_key j s.buckets)
      → Checked top key result s
          (result.0, record s' { buckets = update_key key result.1 s'.buckets })
  update-Checked top key result s s' v found recent kept =
      let keys = map_keys-update_key key result.1 s'.buckets in
      let mine = v.same key ∙ found in
      record {
        valid = record {
          indexed = v.indexed;
          fresh = v.fresh;
          falling = v.falling;
          distinct = v.distinct;
          once = rw keys v.once;
          same = λ k. ap (has k) keys ∙ v.same k;
          count = length-update_key key result.1 s'.buckets ∙ v.count;
        };
        decision = refl;
        own = find_key-update_key key key result.1 s'.buckets mine ∙ rw (bytes_eq_refl key) refl;
        recent = recent;
        others = λ j e there.
            find_key-update_key j key result.1 s'.buckets mine ∙ rw e refl ∙ kept j e there;
      }

  -- A check never touches a bucket that is gone: it has the key's own bucket decide, keeps it, and
  -- keeps the others as they were, but for those of the keys that were used longest ago.
  pub check_shard-Checked :
      (top : ℕ) (key : Bytes) (rate burst : d.Real) (now : ℕ) (s : Shard d)
      → 0 < top
      → IsShard d s
      → (r : Decision × Shard d) × (check_shard d top key rate burst now s ≡ some r)
        × Checked top key
            (allow d (bucket_of key s) rate (if d.lt (zero_real d) burst then burst else rate) now)
            s
            r
  unfolding check_shard evict_if_needed allow_at
  check_shard-Checked top key rate burst now s h v =
      let (s', run, v', recent, kept) =
        evict-recent d (length (touched key s).buckets) top (touched key s)
          (touched-IsShard key s v) (omega arith) in
      let found : has key (order d s') ≡ true =
        ap (has key) (recent ∙ ap (take top) (order-touched key s v))
        ∙ front key top (remove key (order d s)) h in
      let b : find_key key s'.buckets ≡ some (bucket_of key s) =
        kept key found ∙ find_key-ensure_bucket key key s ∙ rw (bytes_eq_refl key) refl in
      let own = if d.lt (zero_real d) burst then burst else rate in
      let result = allow d (bucket_of key s) rate own now in
      (
        (result.0, record s' { buckets = update_key key result.1 s'.buckets }),
        ap (allow_at d key rate own now) run ∙ ap (allow_bucket d key rate own now s') b,
        update-Checked top key result s s' v' found (recent ∙ ap (take top) (order-touched key s v))
            (λ j e there. kept j there ∙ find_key-ensure_bucket j key s ∙ rw e refl),
      )
