-- ===== src/Security/RateLimit/Chained.antt =====
-- The rate limiter in the chain of checks: `snapshot->rate_limiter->check_all(normalized_ip, path,
-- service, *snapshot->rate_policy)` in `src/security/security_rules.hpp`.
use asio_owen.Prelude.{
  ℕ, ◌+◌, true, false, Option, none, some, Bytes, ◌≡◌, inl, inr, subst, sym, ap, ◌∙◌,
  some-injective, ok,
}
use asio_owen.Security.Path.{normalize_path}
use asio_owen.Security.Address.{AddressLib}
use asio_owen.Security.Jwt.{JwtLib}
use asio_owen.Security.Chain.{
  Decision, Limiter, Request, Snapshot, client_of, extract_service, check_snapshot,
}
use asio_owen.Security.Chain.Passes.{Passed, WithinLimits, check_snapshot-Passed}
use asio_owen.Security.RateLimit.{Doubles}
use asio_owen.Security.RateLimit.Global.{check_global}
use asio_owen.Security.RateLimit.Limits.{Times, Config, RateLimiter, check_all}
use asio_owen.Security.RateLimit.Limits.Total.{IsLimiter, Answers, check_all-Answers}

-- `clock` has the times at which the calls read the clock.
module _ (d : Doubles) (hash : Bytes → ℕ) (cfg : Config d hash) (clock : ℕ → Times) where
  pub record Running : Type 0 where
    pub limiter : RateLimiter d hash
    pub calls : ℕ

  -- Undefined behaviour is a refusal here. It does not come up on a limiter in order.
  abbrev pub answer_of : Running → Option (Decision × RateLimiter d hash) → Decision × Running
  answer_of s none = (record { allowed = false; retry_after_ms = 0 }, s)
  answer_of s (some (decision, l)) = (decision, record { limiter = l; calls = s.calls + 1 })

  unfoldable pub answer : Bytes → Bytes → Bytes → Running → Decision × Running
  unfolding check_all
  answer ip path service s =
      answer_of s (check_all d hash ip path service cfg (clock s.calls) s.limiter)

  -- The limiter as the chain uses it.
  abbrev pub rate_limiter : Limiter
  rate_limiter = record { State = Running; check_all = answer }

  answer-check_all :
      (ip path service : Bytes) (s : Running)
      → IsLimiter d hash s.limiter
      → (r : Decision × RateLimiter d hash) × ((answer ip path service s).0 ≡ r.0)
        × IsLimiter d hash (answer ip path service s).1.limiter
        × Answers d hash ip path service cfg (clock s.calls) s.limiter r
  unfolding answer
  answer-check_all ip path service s v =
      let (r, e, v', a) =
        check_all-Answers d hash ip path service cfg (clock s.calls) s.limiter v in
      (
        r,
        ap (λ o. (answer_of s o).0) e,
        subst (λ o. IsLimiter d hash (answer_of s o).1.limiter) (sym e) v',
        a,
      )

  module _ (net : AddressLib) (jwt : JwtLib) where
    within :
        (s : Snapshot net jwt rate_limiter) (ip path : Bytes) (state : Running)
        → s.has_limiter ≡ true
        → WithinLimits net jwt rate_limiter s ip path state
        → (answer ip path (extract_service path) state).0.allowed ≡ true
    within s ip path state limited (inl e) = cc
    within s ip path state limited (inr e) = e

    -- A request that comes through the chain while a limiter is set, and in order, was within the
    -- limits: those of its client's address, of its normalized path, of the service that this path names
    -- and of the total all allowed it.
    pub check_snapshot-limits :
        (s : Snapshot net jwt rate_limiter) (now : ℕ) (r : Request) (state : Running)
        → IsLimiter d hash state.limiter
        → s.has_limiter ≡ true
        → (check_snapshot net jwt rate_limiter (some s) now r state).0.status_code ≡ 0
        → (path : Bytes) × (normalize_path s.case_sensitive_paths r.raw_path ≡ ok path)
          × (answered : Decision × RateLimiter d hash) × (all : Answers d hash
              (client_of net jwt rate_limiter s r).str
              path
              (extract_service path)
              cfg
              (clock state.calls)
              state.limiter
              answered)
          × (all.a.0.allowed ≡ true)
          × (all.b.0.allowed ≡ true)
          × (all.c.0.allowed ≡ true)
          × ((check_global d all.c.1.global cfg.global_rps cfg.global_rps
                (clock state.calls).total).0.allowed
              ≡ true)
    check_snapshot-limits s now r state v limited h =
        let (s', e, passed') = check_snapshot-Passed net jwt rate_limiter (some s) now r state h in
        let passed : Passed net jwt rate_limiter s now r state =
          subst (λ t. Passed net jwt rate_limiter t now r state) (sym (some-injective s s' e))
            passed' in
        let ip = (client_of net jwt rate_limiter s r).str in
        let (answered, same, _, all) =
          answer-check_all ip passed.path (extract_service passed.path) state v in
        let (a, b, c, t) = all.all_allow.0 (
          sym (ap (λ x. x.allowed) same)
          ∙ within s ip passed.path state limited passed.in_limits) in
        (passed.path, passed.normalized, answered, all, a, b, c, t)
