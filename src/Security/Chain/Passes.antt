-- ===== src/Security/Chain/Passes.antt =====
-- What a request has passed once the chain lets it through.
use asio_owen.Prelude.{
  ℕ, true, false, not, ◌||◌, [], Option, some, none, Bytes, codes, bytes_eq, bytes_eq_iff, is_empty,
  Outcome, ok, err, ◌≡◌, ◌≢◌, ◌⊎◌, inl, inr, refl, arith, Bool-cases,
}
use asio_owen.Security.Path.{PathError, normalize_path}
use asio_owen.Security.Address
use asio_owen.Security.Address.{AddressLib, Address}
use asio_owen.Security.Jwt.{JwtLib}
use asio_owen.Security.Chain.{
  Decision, Limiter, CheckResult, Request, Snapshot, refuse, extract_service, check_decoded,
  check_rules, check_allowed, check_rate, check_client, check_normalized, client_of, check_snapshot,
  has_jwt,
}
use asio_owen.Security.Chain.Authenticated.{Authenticated, authenticate-Authenticated}

module _ (net : AddressLib) (jwt : JwtLib) (limiter : Limiter) where
  open limiter use {State}

  -- The limiter let the request through, or there is none.
  abbrev pub WithinLimits : Snapshot net jwt limiter → Bytes → Bytes → State → Type 0
  WithinLimits s ip path state =
      (s.has_limiter ≡ false)
      ⊎ ((limiter.check_all ip path (extract_service path) state).0.allowed ≡ true)

  -- What stands behind a zero status.
  pub record Passed (s : Snapshot net jwt limiter) (now : ℕ) (r : Request) (state : State)
      : Type 0 where
    pub not_root : (is_empty r.raw_path || bytes_eq r.raw_path (codes "/")) ≡ false
    pub path : Bytes
    pub normalized : normalize_path s.case_sensitive_paths r.raw_path ≡ ok path
    pub address_known : (client_of net jwt limiter s r).addr ≢ none
    pub not_barred :
        Address.is_blocked net s.ip_blacklist (client_of net jwt limiter s r).str ≡ false
    pub in_limits : WithinLimits s (client_of net jwt limiter s r).str path state
    pub authenticated :
        (r.method ≡ codes "OPTIONS")
        ⊎ Authenticated net jwt limiter s now path (extract_service path) r.auth_header

  check_allowed_lem :
      (s : Snapshot net jwt limiter) (now : ℕ) (r : Request) (path service : Bytes)
      (result : CheckResult)
      → (check_allowed net jwt limiter s now r path service result).status_code ≡ 0
      → (r.method ≡ codes "OPTIONS")
        ⊎ Authenticated net jwt limiter s now path service r.auth_header
  unfolding check_allowed
  check_allowed_lem s now r path service result h =
      elim (Bool-cases (bytes_eq r.method (codes "OPTIONS"))) [
        | inl e ↦ inl ((bytes_eq_iff r.method (codes "OPTIONS")).0 e)
        | inr e ↦ inr (
            authenticate-Authenticated net jwt limiter s now path service r.auth_header result
              (rw e at h))
      ]

  check_rate_lem :
      (s : Snapshot net jwt limiter) (now : ℕ) (r : Request) (path service : Bytes)
      (result : CheckResult) (d : Decision × State)
      → (check_rate net jwt limiter s now r path service result d).0.status_code ≡ 0
      → (d.0.allowed ≡ true)
        × ((check_allowed net jwt limiter s now r path service result).status_code ≡ 0)
  unfolding check_rate
  check_rate_lem s now r path service result (decision, state) h = ground arith

  check_client-Passed :
      (s : Snapshot net jwt limiter) (now : ℕ) (r : Request) (path : Bytes) (state : State)
      → (is_empty r.raw_path || bytes_eq r.raw_path (codes "/")) ≡ false
      → normalize_path s.case_sensitive_paths r.raw_path ≡ ok path
      → (client_of net jwt limiter s r).addr ≢ none
      → (check_client net jwt limiter s now r
          (client_of net jwt limiter s r).str
          path
          state).0.status_code
        ≡ 0
      → Passed s now r state
  unfolding check_client
  check_client-Passed s now r path state root norm known h =
      elim (Bool-cases (Address.is_blocked net s.ip_blacklist ip)) [
        | inl b ↦ absurd (barred (rw b at h))
        | inr b ↦ elim (Bool-cases s.has_limiter) [
          | inl l ↦
              let (fine, k) =
                check_rate_lem s now r path service result (limiter.check_all ip path service state)
                  (rw (b, l) at h) in
              passed b (inr fine) (check_allowed_lem s now r path service result k)
          | inr l ↦
              passed b (inl l) (check_allowed_lem s now r path service result (rw (b, l) at h))
        ]
      ]
    where
      ip : Bytes
      ip = (client_of net jwt limiter s r).str

      service : Bytes
      service = extract_service path

      result : CheckResult
      result = record {
        status_code = 0;
        reason = [];
        retry_after_ms = 0;
        principal = none;
        client_ip = ip;
        jwt_disabled = not (has_jwt net jwt limiter s.jwt_auth);
      }

      barred : ◌≡◌ {A = ℕ} 403 0 → ⊥
      barred e = absurd (omega arith)

      passed :
          Address.is_blocked net s.ip_blacklist ip ≡ false
          → WithinLimits s ip path state
          → (r.method ≡ codes "OPTIONS")
            ⊎ Authenticated net jwt limiter s now path service r.auth_header
          → Passed s now r state
      passed b l a = record {
        not_root = root;
        path = path;
        normalized = norm;
        address_known = known;
        not_barred = b;
        in_limits = l;
        authenticated = a;
      }

  check_decoded-Passed :
      (s : Snapshot net jwt limiter) (now : ℕ) (r : Request) (state : State)
      (o : Outcome PathError Bytes)
      → (is_empty r.raw_path || bytes_eq r.raw_path (codes "/")) ≡ false
      → normalize_path s.case_sensitive_paths r.raw_path ≡ o
      → (client_of net jwt limiter s r).addr ≢ none
      → (check_decoded net jwt limiter s now r
          (client_of net jwt limiter s r).str
          o
          state).0.status_code
        ≡ 0
      → Passed s now r state
  unfolding check_decoded refuse
  check_decoded-Passed s now r state (err e) root norm known h = absurd (omega arith)
  check_decoded-Passed s now r state (ok path) root norm known h =
      check_client-Passed s now r path state root norm known h

  check_rules-Passed :
      (snapshot : Option (Snapshot net jwt limiter)) (now : ℕ) (r : Request) (state : State)
      → (is_empty r.raw_path || bytes_eq r.raw_path (codes "/")) ≡ false
      → (check_rules net jwt limiter snapshot now r state).0.status_code ≡ 0
      → (s : Snapshot net jwt limiter) × (snapshot ≡ some s) × Passed s now r state
  unfolding check_rules check_normalized refuse
  check_rules-Passed none now r state root h = absurd (omega arith)
  check_rules-Passed (some s) now r state root h =
      (s, refl, go (client_of net jwt limiter s r).addr refl h)
    where
      go :
          (a : Option Address)
          → (client_of net jwt limiter s r).addr ≡ a
          → (check_normalized net jwt limiter s now r
              (client_of net jwt limiter s r).str
              a
              state).0.status_code
            ≡ 0
          → Passed s now r state
      go none e k = absurd (omega arith)
      go (some a) e k =
          check_decoded-Passed s now r state (normalize_path s.case_sensitive_paths r.raw_path) root
            refl (λ n. cc) k

  -- A request is let through only if the rules are there, it is not for the root, its path can be
  -- normalized, the client's address is known and not barred, the limiter allows it, and it is a
  -- preflight or its path is open to it: by the whitelist, with JWT switched off, or by a token.
  pub check_snapshot-Passed :
      (snapshot : Option (Snapshot net jwt limiter)) (now : ℕ) (r : Request) (state : State)
      → (check_snapshot net jwt limiter snapshot now r state).0.status_code ≡ 0
      → (s : Snapshot net jwt limiter) × (snapshot ≡ some s) × Passed s now r state
  unfolding check_snapshot refuse
  check_snapshot-Passed snapshot now r state h =
      elim (Bool-cases (is_empty r.raw_path || bytes_eq r.raw_path (codes "/"))) [
        | inl e ↦ absurd (root (rw e at h))
        | inr e ↦ check_rules-Passed snapshot now r state e (rw e at h)
      ]
    where
      root : ◌≡◌ {A = ℕ} 404 0 → ⊥
      root e = absurd (omega arith)
