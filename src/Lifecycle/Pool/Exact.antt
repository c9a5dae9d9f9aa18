-- ===== src/Lifecycle/Pool/Exact.antt =====
-- The counters of a pool are exact and within their limits, however its threads interleave.
use asio_owen.Prelude.{
  ℕ, suc, zero, ◌+◌, ◌-◌, ◌≤◌, true, false, List, [], ◌∷◌, length, All, ◌≡◌, inr, refl, ap, sym,
  subst, arith,
}
use asio_owen.Lifecycle.Threads.{World, total, Counts, Step-Counts, Reach, Reach_keeps}
use asio_owen.Lifecycle.Pool.{Shard, Config, State, Op, Effect, Place, ready, Edge, Move, move}
use asio_owen.Lifecycle.Pool.Weights.{
  Follows, flights, totals, budgets, holds, flight_gain, flight_loss, total_gain, total_loss,
  budget_gain, budget_loss, hold_gain, hold_loss, Edge-flights, Edge-totals, Edge-budgets,
  Edge-holds,
}
use asio_owen.Lifecycle.Pool.Shards.{idle_sum, no_shard, shard_at, AtHome}
use asio_owen.Lifecycle.Pool.Effects.{
  Within, IsTotal, IsShared, Effect-flights, Effect-totals, Effect-budgets,
}
use asio_owen.Lifecycle.Pool.PerShard.{out_of, IsCounted, Effect-AtHome, Effect-holds}

abbrev pub AllOutside : List Place → Type 0
AllOutside = All (λ p. p ≡ ready false)

-- A count that every operation changes as it changes what the threads have.
module _ (cfg : Config) (weight : Place → ℕ) (gain loss : Op → ℕ) (count : State → ℕ)
    (Fine : State → Type 0)
    (edge : (p : Place) (op : Op) (q : Place)
      → Edge cfg p op q
      → Follows weight (gain op) (loss op) p q)
    (effect : (s : State) (op : Op) (t : State)
      → Effect cfg s op t
      → loss op ≤ count s
      → Fine s
      → (count t + loss op ≡ count s + gain op) × Fine t) where
  Move-keeps :
      (others : ℕ) (s : State) (p : Place) (t : State) (q : Place)
      → Move cfg s p t q
      → count s ≡ others + weight p
      → ◌≡◌ {A = ℕ} 0 0
      → Fine s
      → (count t ≡ others + weight q) × (◌≡◌ {A = ℕ} 0 0) × Fine t
  Move-keeps others s p t q (move {op} e f) a b c =
      let (has, after) = edge p op q f in
      let (changed, fine) = effect s op t e (omega arith) c in (omega arith, refl, fine)

  total_outside :
      (ps : List Place)
      → weight (ready false) ≡ 0
      → AllOutside ps
      → (total weight ps ≡ 0) × (total (λ p. 0) ps ≡ 0)
  total_outside [] z h = (refl, refl)
  total_outside (p ∷ ps) z h = omega (arith, total_outside ps z h.1, ap weight h.0, z)

  Reach-counts :
      (s : State) (ps : List Place) {w : World State Place}
      → weight (ready false) ≡ 0
      → AllOutside ps
      → count s ≡ 0
      → Fine s
      → Reach (Move cfg) (record { shared = s; threads = ps }) w
      → (count w.shared ≡ total weight w.threads) × Fine w.shared
  Reach-counts s ps z outside none fine path =
      let (a, b) = total_outside ps z outside in
      let good =
        Reach_keeps (Move cfg) (Counts (Move cfg) weight (λ p. 0) count Fine)
          (Step-Counts (Move cfg) weight (λ p. 0) count Fine Move-keeps) path
          (record { exact = omega (arith, a, none); places = b; fine = fine }) in
      (good.exact, good.fine)

-- A pool as it is made, with some shards, beside pools that have connections out already.
abbrev empty_shards : ℕ → List Shard
empty_shards zero = []
empty_shards (suc n) = no_shard ∷ empty_shards n

abbrev pub new_pool : ℕ → ℕ → ℕ → State
new_pool kshards limit others = record {
  running = true;
  shards = empty_shards kshards;
  total_count = 0;
  in_flight_count = 0;
  budget = record { current = others; limit = limit };
  others = others;
}

idle_none : (n : ℕ) → idle_sum (empty_shards n) ≡ 0
idle_none zero = refl
idle_none (suc n) = omega (arith, idle_none n)

shard_none : (j n : ℕ) → shard_at j (empty_shards n) ≡ no_shard
shard_none j zero = refl
shard_none zero (suc n) = refl
shard_none (suc j) (suc n) = shard_none j n

module _ (cfg : Config) (kshards limit others : ℕ) (ps : List Place) {w : World State Place}
    (outside : AllOutside ps)
    (path : Reach
      (Move cfg)
      (record { shared = new_pool kshards limit others; threads = ps })
      w) where
  -- However threads use a pool and whatever fails, the number of connections in flight is that of
  -- the threads that have a slot, and with a limit there are no more than that.
  pub in_flight_count_exact :
      (w.shared.in_flight_count ≡ total flights w.threads)
      × Within cfg.max_concurrent w.shared.in_flight_count
  in_flight_count_exact =
      Reach-counts cfg flights flight_gain flight_loss (λ s. s.in_flight_count)
        (λ s. Within cfg.max_concurrent s.in_flight_count) (λ p op q f. Edge-flights f)
        (λ s op t e l c. Effect-flights e l c) (new_pool kshards limit others) ps refl outside refl
        (inr (omega arith)) path

  -- The total is that of the idle connections and of those that threads have or still have to give
  -- up, and never above the size of the pool. The budget that pools share has the same, but for
  -- connections about to be opened or already given back to it, beside what the other pools have.
  pub total_count_exact :
      (w.shared.total_count ≡ idle_sum w.shared.shards + total totals w.threads)
      × (w.shared.total_count ≤ cfg.max_size)
      × (w.shared.budget.current
          ≡ idle_sum w.shared.shards + w.shared.others + total budgets w.threads)
  total_count_exact =
      let (a, b) =
        Reach-counts cfg totals total_gain total_loss (λ s. s.total_count - idle_sum s.shards)
          (IsTotal cfg) (λ p op q f. Edge-totals f) (λ s op t e l c. Effect-totals e l c)
          (new_pool kshards limit others) ps refl outside (omega arith)
          (omega (arith, idle_none kshards)) path in
      let (c, d) =
        Reach-counts cfg budgets budget_gain budget_loss
          (λ s. s.budget.current - (idle_sum s.shards + s.others)) IsShared
          (λ p op q f. Edge-budgets f) (λ s op t e l c. Effect-budgets e l c)
          (new_pool kshards limit others) ps refl outside (omega arith)
          (omega (arith, idle_none kshards)) path in
      (omega (arith, a, b), b.1, omega (arith, c, d))

  -- Each shard counts its connections: the total is that of its idle ones and of those of it that
  -- threads hold, which are its number in flight. An idle connection stands in its own shard.
  pub shard_exact :
      (j : ℕ)
      → ((shard_at j w.shared.shards).total
          ≡ length (shard_at j w.shared.shards).idle + total (holds j) w.threads)
        × ((shard_at j w.shared.shards).in_flight ≡ total (holds j) w.threads)
        × All (λ c. c.shard_idx ≡ j) (shard_at j w.shared.shards).idle
  shard_exact j =
      let (a, (home, counted)) =
        Reach-counts cfg (holds j) (hold_gain j) (hold_loss j) (λ s. out_of (shard_at j s.shards))
          (λ s. AtHome s.shards × IsCounted (shard_at j s.shards)) (λ p op q f. Edge-holds j f)
          (λ s op t e l c. let (x, y) = Effect-holds j e l c.0 c.1 in (x, (Effect-AtHome e c.0, y)))
          (new_pool kshards limit others) ps refl outside (ap out_of (shard_none j kshards))
          (
            (λ k. subst (λ x. All (λ c. c.shard_idx ≡ k) x.idle) (sym (shard_none k kshards)) tt),
            subst IsCounted (sym (shard_none j kshards)) (omega arith),
          )
          path in
      (omega (arith, a, counted), omega (arith, a, counted), home j)
