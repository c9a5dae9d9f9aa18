-- ===== src/Tests/Pool.antt =====
-- A thread that acquires a connection of a pool, and another that puts it back.
use asio_owen.Prelude.{ℕ, ◌+◌, ◌≤◌, true, false, List, [], ◌∷◌, All, ◌≡◌, inr, refl, arith}
use asio_owen.Lifecycle.Threads.{World, total, Reach, start, next, turn}
use asio_owen.Lifecycle.Handlers.{fetch_sub_one}
use asio_owen.Lifecycle.Pool
use asio_owen.Lifecycle.Pool.{
  HttpConn, Shard, Config, State, Place, Move, move, with_current, with_shard,
}
use asio_owen.Lifecycle.Pool.Weights.{flights, totals, budgets, holds}
use asio_owen.Lifecycle.Pool.Shards.{idle_sum, no_shard}
use asio_owen.Lifecycle.Pool.Effects.{Within}
use asio_owen.Lifecycle.Pool.Exact.{
  new_pool, AllOutside, in_flight_count_exact, total_count_exact, shard_exact,
}

abbrev pool_config : Config
pool_config = record { max_size = 4; max_concurrent = 3; idle_timeout_sec = 60 }

abbrev conn : ℕ → HttpConn
conn at = record {
  name = 7;
  shard_idx = 1;
  last_used_at = at;
  is_open = true;
  connection_close = false;
  has_unread = false;
}

abbrev counts : ℕ → ℕ → ℕ → Shard → State
counts flight all taken shard = record {
  running = true;
  shards = no_shard ∷ shard ∷ [];
  total_count = all;
  in_flight_count = flight;
  budget = record { current = taken; limit = 8 };
  others = 1;
}

abbrev held : Shard
held = record { idle = []; active = 7 ∷ []; total = 1; in_flight = 1 }

abbrev parked : Shard
parked = record { idle = conn 90 ∷ []; active = []; total = 1; in_flight = 0 }

abbrev other : List Place
other = Place.ready false ∷ []

abbrev with_one : State → Place → World State Place
with_one s p = record { shared = s; threads = p ∷ other }

acquired :
    Reach
      (Move pool_config)
      (with_one (new_pool 2 8 1) (Place.ready false))
      (with_one (counts 1 1 2 held) (Place.using (conn 50)))
acquired =
    next {v = with_one (counts 1 1 2 held) (Place.connecting (conn 0))}
      (next {v = with_one (counts 1 1 2 no_shard) Place.budgeted}
        (next {v = with_one (counts 1 1 1 no_shard) Place.reserved}
          (next {v = with_one (counts 1 0 1 no_shard) (Place.ready true)}
            (next {v = with_one (new_pool 2 8 1) (Place.ready false)} start (
              turn [] other (Place.ready false) (Place.ready true) refl refl
                (move (Pool.flight_up (inr (omega arith))) Pool.enter)))
            (turn [] other (Place.ready true) Place.reserved refl refl
              (move (Pool.total_up (omega arith)) Pool.reserve)))
          (turn [] other Place.reserved Place.budgeted refl refl
            (move (Pool.budget_up {limit = 8} (inr (omega arith))) Pool.take_budget)))
        (turn [] other Place.budgeted (Place.connecting (conn 0)) refl refl
          (move (Pool.made {c = conn 0} {sh = no_shard} refl) Pool.create)))
      (turn [] other (Place.connecting (conn 0)) (Place.using (conn 50)) refl refl
        (move Pool.nothing (Pool.connected 50)))

released :
    Reach
      (Move pool_config)
      (with_one (new_pool 2 8 1) (Place.ready false))
      (with_one (counts 1 1 2 parked) Place.leaving)
unfolding fetch_sub_one
released = next acquired (
    turn [] other (Place.using (conn 50)) Place.leaving refl refl
      (move (Pool.pooled {c = conn 90} {sh = held} refl) (Pool.release_pooled 90 refl)))

outside : AllOutside (Place.ready false ∷ other)
outside = (refl, (refl, tt))

in_flight_count_exact_example :
    (◌≡◌ {A = ℕ} 1 (total flights (Place.using (conn 50) ∷ other))) × Within 3 1
in_flight_count_exact_example =
    in_flight_count_exact pool_config 2 8 1 (Place.ready false ∷ other) outside acquired

total_count_exact_example :
    (◌≡◌ {A = ℕ} 1 (idle_sum (no_shard ∷ parked ∷ []) + total totals (Place.leaving ∷ other)))
    × (1 ≤ 4)
    × (◌≡◌ {A = ℕ} 2
        (idle_sum (no_shard ∷ parked ∷ []) + 1 + total budgets (Place.leaving ∷ other)))
total_count_exact_example =
    total_count_exact pool_config 2 8 1 (Place.ready false ∷ other) outside released

shard_exact_example :
    (◌≡◌ {A = ℕ} 1 (0 + total (holds 1) (Place.using (conn 50) ∷ other)))
    × (◌≡◌ {A = ℕ} 1 (total (holds 1) (Place.using (conn 50) ∷ other)))
    × All (λ c. c.shard_idx ≡ 1) held.idle
shard_exact_example = shard_exact pool_config 2 8 1 (Place.ready false ∷ other) outside acquired 1
