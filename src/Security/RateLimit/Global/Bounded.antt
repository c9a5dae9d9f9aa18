-- ===== src/Security/RateLimit/Global/Bounded.antt =====
-- The shared bucket holds its rate, however the threads interleave.
use asio_owen.Prelude.{ℕ, ◌+◌, ◌-◌, ◌*◌, ◌≤◌, ◌≡◌, List, All, pos, pos_part, neg_part}
use asio_owen.Lifecycle.Threads.{World}
use asio_owen.Security.RateLimit.Global.{Place, outside, Observed}

module _ (initial start per_ms : ℕ) where
  pub record IsPaid (s : Observed) : Type 0 where
    -- What is in the bucket, or will be put back.
    pub covered : neg_part s.bucket.tokens_milli ≤ pos_part s.bucket.tokens_milli + s.owed
    pub paid :
        pos_part s.bucket.tokens_milli + s.owed + 1000 * s.allowed
        ≤ initial + s.granted + neg_part s.bucket.tokens_milli
    pub later : start ≤ s.bucket.last_refill_ms
    pub timed : s.granted ≤ per_ms * (s.bucket.last_refill_ms - start)

abbrev pub AllOutside : List Place → Type 0
AllOutside = All (λ p. p ≡ outside)

abbrev pub new_world : ℕ → ℕ → List Place → World Observed Place
new_world tokens last ps = record {
  shared = record {
    bucket = record { tokens_milli = pos tokens; last_refill_ms = last };
    allowed = 0;
    granted = 0;
    owed = 0;
  };
  threads = ps;
}
