-- ===== src/Tests/Limits.antt =====
-- Requests, threads and snapshots at the rate limiter of `src/security/rate_limiter.hpp`.
use asio_owen.Prelude.{
  ℕ, zero, suc, ◌*◌, true, false, List, [], ◌∷◌, some, Bytes, codes, length, map, All, starts_with,
  pos, ◌≡◌, refl, arith, bytes_eq, lower, ok,
}
use asio_owen.Lifecycle.Threads.{World}
use asio_owen.Security.Whitelist
use asio_owen.Security.PathRules
use asio_owen.Security.Address
use asio_owen.Security.Jwt.{verify}
use asio_owen.Security.Path.{normalize_path}
use asio_owen.Security.Chain.{Decision, Snapshot, client_of, extract_service, check_snapshot}
use asio_owen.Security.RateLimit.{Shard}
use asio_owen.Security.RateLimit.Recent.{IsShard}
use asio_owen.Security.RateLimit.Global.{Observed, Place, outside, check_global}
use asio_owen.Security.RateLimit.Global.Bounded.{new_world}
use asio_owen.Security.RateLimit.Limits.{
  shard_count, Times, RateLimitRule, Config, RateLimiter, normalize_config, make_limiter, path_rule,
}
use asio_owen.Security.RateLimit.Limits.Total.{Answers, make_limiter-IsLimiter}
use asio_owen.Security.RateLimit.Limits.Paths.{IsRuleFor, path_rule-longest}
use asio_owen.Security.RateLimit.Chained.{Running, answer, rate_limiter, check_snapshot-limits}
use asio_owen.Security.RateLimit.Snapshot.{
  Buckets, Gaps, rebuild, write_shards, write_entries, write_entry, write_header, read_header,
  read_shards, read_entries, read_entry, checksum_from, write_snapshot, load_snapshot,
}
use asio_owen.Security.RateLimit.Snapshot.Entries.{IsStored, FitsMap}
use asio_owen.Security.RateLimit.Snapshot.RoundTrip.{load_snapshot-write_snapshot}
use asio_owen.Security.RateLimit.Snapshot.Rebuilt.{refreshed}
use asio_owen.Security.RateLimit.Snapshot.AnyFile.{load_snapshot-IsShard}
use asio_owen.Tests.Security.{lib, proxies, rules, open_items}
use asio_owen.Tests.Chain.{jwt, auth, request}
use asio_owen.Tests.RateLimit.{thousandths, one_per_second}

abbrev hash : Bytes → ℕ
hash = length

abbrev rule : RateLimitRule thousandths hash
rule = record { rate = one_per_second; burst = one_per_second }

abbrev cfg : Config thousandths hash
cfg = record {
  ip_rps = one_per_second;
  ip_burst = one_per_second;
  global_rps = one_per_second;
  max_buckets = 64;
  snapshot_interval_sec = 30;
  snapshot_path = codes "rate_limit.bin";
  path_limits = [];
  path_prefix_limits = (codes "/a", rule) ∷ (codes "/admin", rule) ∷ [];
  service_limits = [];
}

abbrev times : Times
times = record { ip = 5000; path = 5000; service = 5000; total = 5000 }

abbrev fresh : RateLimiter thousandths hash
fresh = make_limiter thousandths hash cfg

found :
    path_rule thousandths hash (codes "/admin/x") (normalize_config thousandths hash cfg)
    ≡ some (codes "/admin", rule)
unfolding path_rule normalize_config starts_with bytes_eq
found = refl

path_rule-longest_example :
    IsRuleFor thousandths hash
      (codes "/admin/x")
      cfg
      (path_rule thousandths hash (codes "/admin/x") (normalize_config thousandths hash cfg))
path_rule-longest_example = path_rule-longest thousandths hash (codes "/admin/x") cfg

abbrev running : Running thousandths hash cfg (λ n. times)
running = record { limiter = fresh; calls = 0 }

abbrev snapshot : Snapshot lib jwt (rate_limiter thousandths hash cfg (λ n. times))
snapshot = record {
  case_sensitive_paths = false;
  trusted_proxies = proxies;
  ip_blacklist = Address.reload lib [];
  auth_whitelist = Whitelist.reload open_items;
  path_blacklist = PathRules.reload rules;
  jwt_auth = some auth;
  has_limiter = true;
}

passes :
    (check_snapshot lib jwt
      (rate_limiter thousandths hash cfg (λ n. times))
      (some snapshot)
      900
      request
      running).0.status_code
    ≡ 0
unfolding check_snapshot Address.normalize_ip Address.get_client_ip Address.is_blocked
    Address.reload Whitelist.is_whitelisted Whitelist.reload starts_with verify PathRules.check
    PathRules.reload bytes_eq answer normalize_path make_limiter lower
passes = refl

check_snapshot-limits_example :
    (path : Bytes) × (normalize_path false request.raw_path ≡ ok path)
    × (answered : Decision × RateLimiter thousandths hash) × (all : Answers thousandths hash
        (client_of lib jwt (rate_limiter thousandths hash cfg (λ n. times)) snapshot request).str
        path
        (extract_service path)
        cfg
        times
        fresh
        answered)
    × (all.a.0.allowed ≡ true)
    × (all.b.0.allowed ≡ true)
    × (all.c.0.allowed ≡ true)
    × ((check_global thousandths all.c.1.global cfg.global_rps cfg.global_rps 5000).0.allowed
        ≡ true)
check_snapshot-limits_example =
    check_snapshot-limits thousandths hash cfg (λ n. times) lib jwt snapshot 900 request running
      (make_limiter-IsLimiter thousandths hash cfg) refl passes

-- One millisecond adds one thousandth. A thread refills after a second, and takes a token.
abbrev amount : ℕ → ℕ
amount e = 1 * e

abbrev before : World Observed Place
before = new_world 0 4000 (outside ∷ [])

abbrev at : ℕ → ℕ → ℕ → ℕ → ℕ → Place → World Observed Place
at tokens last allowed granted owed p = record {
  shared = record {
    bucket = record { tokens_milli = pos tokens; last_refill_ms = last };
    allowed = allowed;
    granted = granted;
    owed = owed;
  };
  threads = p ∷ [];
}

stored : IsStored thousandths
stored = record { size = λ x. refl; same = λ x. refl }

abbrev empties : ℕ → List (Buckets thousandths)
empties zero = []
empties (suc n) = [] ∷ empties n

abbrev kept : List (Buckets thousandths)
kept =
    ((codes "10.0.0.1", record { last_refill_ms = 7000; tokens = one_per_second }) ∷ [])
    ∷ empties 31

abbrev gaps : Gaps
gaps = record { g0 = 0; g1 = 0; g2 = 0; g3 = 0; g4 = 0; g5 = 0 }

empties_fit : (n : ℕ) → All (FitsMap thousandths stored) (empties n)
empties_fit zero = tt
empties_fit (suc n) = ((omega arith, tt, tt), empties_fit n)

kept_fits : All (FitsMap thousandths stored) kept
kept_fits = ((omega arith, ((omega arith, omega arith), tt), (refl, tt)), empties_fit 31)

load_snapshot-write_snapshot_example :
    (shards : List (Shard thousandths)) × (load_snapshot thousandths 9000
        (write_snapshot thousandths gaps 8000 kept)
      ≡ some shards)
    × All (IsShard thousandths) shards
    × (map (λ s. s.buckets) shards ≡ map (refreshed thousandths 9000) kept)
load_snapshot-write_snapshot_example =
    load_snapshot-write_snapshot thousandths stored gaps 8000 9000 kept (omega arith) (omega arith)
      refl kept_fits

abbrev reloaded : List (Shard thousandths)
reloaded = map (rebuild thousandths 9000) kept

loads : load_snapshot thousandths 9000 (write_snapshot thousandths gaps 8000 kept) ≡ some reloaded
unfolding load_snapshot write_snapshot write_shards write_entries write_entry write_header
    read_header read_shards read_entries read_entry checksum_from rebuild bytes_eq
loads = refl

load_snapshot-IsShard_example : All (IsShard thousandths) reloaded × (length reloaded ≡ shard_count)
load_snapshot-IsShard_example =
    load_snapshot-IsShard thousandths 9000 (write_snapshot thousandths gaps 8000 kept) reloaded
      loads
