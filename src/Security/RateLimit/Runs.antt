-- ===== src/Security/RateLimit/Runs.antt =====
-- Any number of checks on one shard, one after the other, as its mutex lets them through.
use asio_owen.Prelude.{ℕ, List, [], ◌∷◌, Option, some, none, Bytes, refl}
use asio_owen.Security.Chain.{Decision}
use asio_owen.Security.RateLimit.{Doubles, Shard, check_shard}
use asio_owen.Security.RateLimit.Keys.{remove}
use asio_owen.Security.RateLimit.Recent.{IsShard}

module _ (d : Doubles) where
  pub record Call : Type 0 where
    pub key : Bytes
    pub rate : d.Real
    pub burst : d.Real
    pub now : ℕ

  abbrev pub empty_shard : Shard d
  empty_shard = record { buckets = []; lru_list = []; lru_index = []; next_id = 0 }

  pub empty_shard-IsShard : IsShard d empty_shard
  empty_shard-IsShard = record {
    indexed = refl;
    fresh = tt;
    falling = tt;
    distinct = tt;
    once = tt;
    same = λ k. refl;
    count = refl;
  }

  abbrev pub with_answer :
      Decision → Option (List Decision × Shard d) → Option (List Decision × Shard d)
  with_answer answer none = none
  with_answer answer (some (answers, t)) = some (answer ∷ answers, t)

  abbrev pub after_check :
      (Shard d → Option (List Decision × Shard d))
      → Option (Decision × Shard d)
      → Option (List Decision × Shard d)
  after_check rest none = none
  after_check rest (some (answer, s)) = with_answer answer (rest s)

  unfoldable pub run : ℕ → List Call → Shard d → Option (List Decision × Shard d)
  unfolding check_shard
  run top [] s = some ([], s)
  run top (c ∷ calls) s =
      after_check (run top calls) (check_shard d top c.key c.rate c.burst c.now s)

  -- Every key ever used, the last one first.
  abbrev pub history : List Bytes → List Call → List Bytes
  history h [] = h
  history h (c ∷ calls) = history (c.key ∷ remove c.key h) calls
