-- ===== src/Security/RateLimit/Limits.antt =====
-- `RateLimiter` of `src/security/rate_limiter.hpp`: its configuration, its shards and the check of a
-- request in every dimension. `none` is undefined behaviour: no theorem holds of a run that has it.
pub mod Total
pub mod Paths
use asio_owen.Prelude.{
  ℕ, suc, zero, ◌%◌, ◌/◌, ltb, Bool, true, false, ◌&&◌, List, [], ◌∷◌, ◌++◌, if◌then◌else◌, Option,
  some, none, Bytes, codes, starts_with, length, get_elem?, find_first, max, pos,
}
use asio_owen.Security.Longest.{sort_longest}
use asio_owen.Security.Chain.{Decision}
use asio_owen.Security.RateLimit.{Doubles, Shard, allowed_now, zero_real, find_key, check_shard}
use asio_owen.Security.RateLimit.Global.{GlobalBucket, check_global}

abbrev pub shard_count : ℕ
shard_count = 32

-- `xs[i] = x`.
abbrev pub set {ℓ} : {A : Type ℓ} → List A → ℕ → A → List A
set [] i x = []
set (y ∷ xs) zero x = x ∷ xs
set (y ∷ xs) (suc i) x = y ∷ set xs i x

-- A check that is over, then the rest.
infixl 5 ◌>>=◌
abbrev pub ◌>>=◌ {ℓ κ} : {A : Type ℓ} {B : Type κ} → Option A → (A → Option B) → Option B
none >>= f = none
some a >>= f = f a

-- The times at which the clock is read for the address, the path, the service and the total.
pub record Times : Type 0 where
  pub ip : ℕ
  pub path : ℕ
  pub service : ℕ
  pub total : ℕ

-- The answer of four: all must allow, and the longest time to wait is given.
unfoldable pub combine : Decision → Decision → Decision → Decision → Decision
combine ip path service total =
    if ip.allowed && path.allowed && service.allowed && total.allowed then allowed_now else record {
      allowed = false;
      retry_after_ms =
          max (max (max ip.retry_after_ms path.retry_after_ms) service.retry_after_ms)
            total.retry_after_ms;
    }

-- `std::hash<std::string>` is a parameter.
module _ (d : Doubles) (hash : Bytes → ℕ) where
  pub record RateLimitRule : Type 0 where
    pub rate : d.Real
    pub burst : d.Real

  pub record Config : Type 0 where
    pub ip_rps : d.Real
    pub ip_burst : d.Real
    pub global_rps : d.Real
    pub max_buckets : ℕ
    pub snapshot_interval_sec : ℕ
    pub snapshot_path : Bytes
    pub path_limits : List (Bytes × RateLimitRule)
    pub path_prefix_limits : List (Bytes × RateLimitRule)
    pub service_limits : List (Bytes × RateLimitRule)

  pub record RateLimiter : Type 0 where
    pub cfg : Config
    pub max_buckets_per_shard : ℕ
    pub shards : List (Shard d)
    pub global : GlobalBucket

  unfoldable pub normalize_config : Config → Config
  unfolding sort_longest
  normalize_config cfg = record cfg {
    max_buckets = if ltb cfg.max_buckets shard_count then shard_count else cfg.max_buckets;
    path_prefix_limits = sort_longest (λ p. length p.0) cfg.path_prefix_limits;
  }

  unfoldable pub publish_config : Config → RateLimiter → RateLimiter
  publish_config normalized l = record l {
    cfg = normalized;
    max_buckets_per_shard = normalized.max_buckets / shard_count;
  }

  unfoldable pub update_config : Config → RateLimiter → RateLimiter
  unfolding normalize_config publish_config
  update_config cfg l = publish_config (normalize_config cfg) l

  abbrev pub replicate : ℕ → Shard d → List (Shard d)
  replicate zero s = []
  replicate (suc n) s = s ∷ replicate n s

  abbrev no_keys : Shard d
  no_keys = record { buckets = []; lru_list = []; lru_index = []; next_id = 0 }

  -- The constructor, with no snapshot to load.
  unfoldable pub make_limiter : Config → RateLimiter
  unfolding normalize_config
  make_limiter cfg = record {
    cfg = normalize_config cfg;
    max_buckets_per_shard = (normalize_config cfg).max_buckets / shard_count;
    shards = replicate shard_count no_keys;
    global = record { tokens_milli = pos 0; last_refill_ms = 0 };
  }

  abbrev pub put_shard : RateLimiter → ℕ → Decision × Shard d → Option (Decision × RateLimiter)
  put_shard l i (answer, s) = some (answer, record l { shards = set l.shards i s })

  unfoldable pub check : Bytes → d.Real → d.Real → ℕ → RateLimiter → Option (Decision × RateLimiter)
  unfolding check_shard
  check key rate burst now l = if d.le rate (zero_real d) then some (allowed_now, l) else (do
    s ← get_elem? l.shards (hash key % shard_count)
    r ← check_shard d l.max_buckets_per_shard key rate burst now s
    put_shard l (hash key % shard_count) r)

  unfoldable pub check_rule :
      Bytes → Option (Bytes × RateLimitRule) → ℕ → RateLimiter → Option (Decision × RateLimiter)
  unfolding check
  check_rule kind none now l = some (allowed_now, l)
  check_rule kind (some (name, rule)) now l = check (kind ++ name) rule.rate rule.burst now l

  abbrev pub named : Bytes → Option RateLimitRule → Option (Bytes × RateLimitRule)
  named name none = none
  named name (some rule) = some (name, rule)

  abbrev or_else :
      Option (Bytes × RateLimitRule)
      → Option (Bytes × RateLimitRule)
      → Option (Bytes × RateLimitRule)
  or_else none b = b
  or_else (some a) b = some a

  -- The rule for a path, with the name under which it counts: the path's own, or the first prefix.
  unfoldable pub path_rule : Bytes → Config → Option (Bytes × RateLimitRule)
  path_rule path cfg =
      or_else (named path (find_key path cfg.path_limits))
        (find_first (λ p. starts_with p.0 path) cfg.path_prefix_limits)

  unfoldable pub check_path : Bytes → Config → ℕ → RateLimiter → Option (Decision × RateLimiter)
  unfolding path_rule check_rule
  check_path path cfg now l = check_rule (codes "path:") (path_rule path cfg) now l

  unfoldable pub check_service : Bytes → Config → ℕ → RateLimiter → Option (Decision × RateLimiter)
  unfolding check_rule
  check_service service cfg now l =
      check_rule (codes "svc:") (named service (find_key service cfg.service_limits)) now l

  abbrev pub with_global :
      Decision
      → Decision
      → Decision
      → RateLimiter
      → Decision × GlobalBucket
      → Decision × RateLimiter
  with_global ip path service l (total, g) =
      (combine ip path service total, record l { global = g })

  -- Every dimension is checked, also when one has refused.
  unfoldable pub check_all :
      Bytes → Bytes → Bytes → Config → Times → RateLimiter → Option (Decision × RateLimiter)
  unfolding check check_path check_service combine check_global
  check_all ip path service cfg times l = do
    a ← check ip cfg.ip_rps cfg.ip_burst times.ip l
    b ← check_path path cfg times.path a.1
    c ← check_service service cfg times.service b.1
    some (
        with_global a.0 b.0 c.0 c.1
          (check_global d c.1.global cfg.global_rps cfg.global_rps times.total))
