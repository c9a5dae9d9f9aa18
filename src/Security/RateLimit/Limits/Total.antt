-- ===== src/Security/RateLimit/Limits/Total.antt =====
-- The rate limiter never comes to undefined behaviour, keeps its shards in order, and answers for
-- all dimensions.
use asio_owen.Prelude.{
  ℕ, suc, zero, ◌%◌, ◌/◌, ◌≤◌, ◌<◌, ltb, true, false, List, [], ◌∷◌, ◌++◌, if◌then◌else◌, Option,
  some, none, Bytes, codes, length, get_elem?, All, ◌≡◌, ◌↔◌, refl, ap, ◌∙◌, arith, inl, inr,
  Bool-cases,
}
use asio_owen.Security.Chain.{Decision}
use asio_owen.Security.RateLimit.{Doubles, Shard, zero_real, allowed_now, find_key}
use asio_owen.Security.RateLimit.Recent.{IsShard}
use asio_owen.Security.RateLimit.Checks.{check_shard-Checked}
use asio_owen.Security.RateLimit.Runs.{empty_shard, empty_shard-IsShard}
use asio_owen.Security.RateLimit.Global.{check_global}
use asio_owen.Security.RateLimit.Limits.{
  shard_count, set, Times, RateLimitRule, Config, RateLimiter, normalize_config, publish_config,
  update_config, replicate, make_limiter, check, check_rule, named, path_rule, check_path,
  check_service, combine, with_global, check_all,
}

All-get {ℓ κ} :
    {A : Type ℓ} (P : A → Type κ) (xs : List A) (i : ℕ)
    → All P xs
    → i < length xs
    → (x : A) × (get_elem? xs i ≡ some x) × P x
All-get P [] i h l = absurd (omega arith)
All-get P (x ∷ xs) zero h l = (x, refl, h.0)
All-get P (x ∷ xs) (suc i) h l = All-get P xs i h.1 (omega arith)

All-set {ℓ κ} :
    {A : Type ℓ} (P : A → Type κ) (xs : List A) (i : ℕ) (x : A)
    → All P xs
    → P x
    → All P (set xs i x)
All-set P [] i x h p = tt
All-set P (y ∷ xs) zero x h p = (p, h.1)
All-set P (y ∷ xs) (suc i) x h p = (h.0, All-set P xs i x h.1 p)

length-set {ℓ} : {A : Type ℓ} (xs : List A) (i : ℕ) (x : A) → length (set xs i x) ≡ length xs
length-set [] i x = refl
length-set (y ∷ xs) zero x = refl
length-set (y ∷ xs) (suc i) x = ap suc (length-set xs i x)

combine_allowed :
    (a b c t : Decision)
    → ((combine a b c t).allowed ≡ true)
      ↔ ((a.allowed ≡ true) × (b.allowed ≡ true) × (c.allowed ≡ true) × (t.allowed ≡ true))
unfolding combine
combine_allowed a b c t = ground arith

combine_waits :
    (a b c t : Decision)
    → (combine a b c t).allowed ≡ false
    → (a.retry_after_ms ≤ (combine a b c t).retry_after_ms)
      × (b.retry_after_ms ≤ (combine a b c t).retry_after_ms)
      × (c.retry_after_ms ≤ (combine a b c t).retry_after_ms)
      × (t.retry_after_ms ≤ (combine a b c t).retry_after_ms)
unfolding combine
combine_waits a b c t h = ground arith

module _ (d : Doubles) (hash : Bytes → ℕ) where
  pub record IsLimiter (l : RateLimiter d hash) : Type 0 where
    pub room : 0 < l.max_buckets_per_shard
    pub complete : length l.shards ≡ shard_count
    pub shards : All (IsShard d) l.shards

  -- A check goes through, and keeps the limiter in order.
  abbrev Goes : Option (Decision × RateLimiter d hash) → Type 0
  Goes o = (r : Decision × RateLimiter d hash) × (o ≡ some r) × IsLimiter r.1

  check-Goes :
      (key : Bytes) (rate burst : d.Real) (now : ℕ) (l : RateLimiter d hash)
      → IsLimiter l
      → Goes (check d hash key rate burst now l)
  unfolding check
  check-Goes key rate burst now l v = elim (Bool-cases (d.le rate (zero_real d))) [
    | inl e ↦ ((allowed_now, l), rw e refl, v)
    | inr e ↦
        let i = hash key % shard_count in
        let (s, found, good) =
          All-get (IsShard d) l.shards i v.shards (omega (arith, v.complete)) in
        let (r, checked, done) =
          check_shard-Checked d l.max_buckets_per_shard key rate burst now s v.room good in
        (
          (r.0, record l { shards = set l.shards i r.1 }),
          rw e (rw found (rw checked refl)),
          record {
            room = v.room;
            complete = length-set l.shards i r.1 ∙ v.complete;
            shards = All-set (IsShard d) l.shards i r.1 v.shards done.valid;
          },
        )
  ]

  check_rule-Goes :
      (kind : Bytes) (rule : Option (Bytes × RateLimitRule d hash)) (now : ℕ)
      (l : RateLimiter d hash)
      → IsLimiter l
      → Goes (check_rule d hash kind rule now l)
  unfolding check_rule
  check_rule-Goes kind none now l v = ((allowed_now, l), refl, v)
  check_rule-Goes kind (some (name, rule)) now l v =
      check-Goes (kind ++ name) rule.rate rule.burst now l v

  module _ (ip path service : Bytes) (cfg : Config d hash) (times : Times)
      (l : RateLimiter d hash) where
    -- What `check_all` answers: the checks of the address, the path and the service are made one
    -- after the other, and then that of the total.
    pub record Answers (r : Decision × RateLimiter d hash) : Type 0 where
      pub a : Decision × RateLimiter d hash
      pub b : Decision × RateLimiter d hash
      pub c : Decision × RateLimiter d hash
      pub by_ip : check d hash ip cfg.ip_rps cfg.ip_burst times.ip l ≡ some a
      pub by_path : check_path d hash path cfg times.path a.1 ≡ some b
      pub by_service : check_service d hash service cfg times.service b.1 ≡ some c
      pub all_allow : (r.0.allowed ≡ true) ↔ (
          (a.0.allowed ≡ true)
          × (b.0.allowed ≡ true)
          × (c.0.allowed ≡ true)
          × ((check_global d c.1.global cfg.global_rps cfg.global_rps times.total).0.allowed
              ≡ true))
      pub waits :
          r.0.allowed ≡ false
          → (a.0.retry_after_ms ≤ r.0.retry_after_ms)
            × (b.0.retry_after_ms ≤ r.0.retry_after_ms)
            × (c.0.retry_after_ms ≤ r.0.retry_after_ms)
            × ((check_global d c.1.global cfg.global_rps cfg.global_rps
                  times.total).0.retry_after_ms
                ≤ r.0.retry_after_ms)

    pub check_all-Answers :
        IsLimiter l
        → (r : Decision × RateLimiter d hash) × (check_all d hash ip path service cfg times l
            ≡ some r)
          × IsLimiter r.1
          × Answers r
    unfolding check_all check_path check_service
    check_all-Answers v =
        let (a, ea, va) = check-Goes ip cfg.ip_rps cfg.ip_burst times.ip l v in
        let (b, eb, vb) =
          check_rule-Goes (codes "path:") (path_rule d hash path cfg) times.path a.1 va in
        let (c, ec, vc) =
          check_rule-Goes (codes "svc:")
            (named d hash service (find_key service cfg.service_limits)) times.service b.1 vb in
        let t = check_global d c.1.global cfg.global_rps cfg.global_rps times.total in
        (
          with_global d hash a.0 b.0 c.0 c.1 t,
          rw ea (rw eb (rw ec refl)),
          record { room = vc.room; complete = vc.complete; shards = vc.shards },
          record {
            a = a;
            b = b;
            c = c;
            by_ip = ea;
            by_path = eb;
            by_service = ec;
            all_allow = combine_allowed a.0 b.0 c.0 t.0;
            waits = combine_waits a.0 b.0 c.0 t.0;
          },
        )

  All-replicate : (n : ℕ) (s : Shard d) → IsShard d s → All (IsShard d) (replicate d hash n s)
  All-replicate zero s v = tt
  All-replicate (suc n) s v = (v, All-replicate n s v)

  at_least : (n : ℕ) → 0 < (if ltb n shard_count then shard_count else n) / shard_count
  at_least n = ground arith

  pub make_limiter-IsLimiter : (cfg : Config d hash) → IsLimiter (make_limiter d hash cfg)
  unfolding make_limiter normalize_config
  make_limiter-IsLimiter cfg = record {
    room = at_least cfg.max_buckets;
    complete = refl;
    shards = All-replicate shard_count (empty_shard d) (empty_shard-IsShard d);
  }

  -- However the configuration is set, an update leaves the limiter in order: a shard has room for
  -- one bucket at least.
  pub update_config-IsLimiter :
      (cfg : Config d hash) (l : RateLimiter d hash)
      → IsLimiter l
      → IsLimiter (update_config d hash cfg l)
  unfolding update_config publish_config normalize_config
  update_config-IsLimiter cfg l v = record {
    room = at_least cfg.max_buckets;
    complete = v.complete;
    shards = v.shards;
  }
