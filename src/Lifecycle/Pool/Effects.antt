-- ===== src/Lifecycle/Pool/Effects.antt =====
-- How an operation changes the counters of a pool.
use asio_owen.Prelude.{
  ℕ, ◌+◌, ◌-◌, ◌≤◌, List, [], ◌∷◌, some, get_elem?, length, length-append, ◌≡◌, ◌⊎◌, inl, inr, refl,
  ap, arith,
}
use asio_owen.Lifecycle.Handlers.{fetch_sub_one}
use asio_owen.Lifecycle.Pool.{
  Shard, Config, State, set_shard, Op, Effect, stop, flight_up, flight_down, total_up, pop_closed,
  pop_used, track, untrack, made, lost, pooled, other_down,
}
use asio_owen.Lifecycle.Pool.Weights.{
  flight_gain, flight_loss, total_gain, total_loss, budget_gain, budget_loss,
}
use asio_owen.Lifecycle.Pool.Shards.{idle_sum, idle_sum-set_shard}

abbrev pub Within : ℕ → ℕ → Type 0
Within limit n = (limit ≡ 0) ⊎ (n ≤ limit)

pub Effect-flights :
    {cfg : Config} {s : State} {op : Op} {t : State}
    → Effect cfg s op t
    → flight_loss op ≤ s.in_flight_count
    → Within cfg.max_concurrent s.in_flight_count
    → (t.in_flight_count + flight_loss op ≡ s.in_flight_count + flight_gain op)
      × Within cfg.max_concurrent t.in_flight_count
Effect-flights (flight_up (inl e)) l f = (omega arith, inl e)
Effect-flights (flight_up (inr h)) l f = (omega arith, inr (omega arith))
Effect-flights flight_down l (inl e) = (omega arith, inl e)
Effect-flights flight_down l (inr h) = (omega arith, inr (omega arith))
Effect-flights e l f = (omega arith, f)

-- The idle connections that an operation takes out of the shards, or puts there.
abbrev popped_by : Op → ℕ
popped_by (Op.pop_closed i c) = 1
popped_by (Op.pop_used i c) = 1
popped_by _ = 0

abbrev pushed_by : Op → ℕ
pushed_by (Op.pooled c) = 1
pushed_by _ = 0

same_idle :
    (i : ℕ) (x sh : Shard) (shards : List Shard)
    → get_elem? shards i ≡ some sh
    → length x.idle ≡ length sh.idle
    → idle_sum (set_shard i x shards) ≡ idle_sum shards
same_idle i x sh shards g e = omega (arith, idle_sum-set_shard i x sh shards g, e)

Effect-idle :
    {cfg : Config} {s : State} {op : Op} {t : State}
    → Effect cfg s op t
    → idle_sum t.shards + popped_by op ≡ idle_sum s.shards + pushed_by op
Effect-idle {s = s} (pop_closed {i} {c} {sh} {rest} g e) = omega (
  arith,
  idle_sum-set_shard i (record sh { idle = rest; total = fetch_sub_one sh.total }) sh s.shards g,
  ap length e,
)
Effect-idle {s = s} (pop_used {i} {c} {sh} {rest} g e) = omega (
  arith,
  idle_sum-set_shard i (record sh { idle = rest; in_flight = sh.in_flight + 1 }) sh s.shards g,
  ap length e,
)
Effect-idle {s = s} (track {c} {sh} g) = omega (arith, same_idle c.shard_idx _ sh s.shards g refl)
Effect-idle {s = s} (untrack {c} {sh} g) = omega (arith, same_idle c.shard_idx _ sh s.shards g refl)
Effect-idle {s = s} (made {c} {sh} g) = omega (arith, same_idle c.shard_idx _ sh s.shards g refl)
Effect-idle {s = s} (lost {c} {sh} g) = omega (arith, same_idle c.shard_idx _ sh s.shards g refl)
Effect-idle {s = s} (pooled {c} {sh} g) =
    omega (arith, idle_sum-set_shard c.shard_idx _ sh s.shards g, length-append sh.idle (c ∷ []))
Effect-idle stop = omega arith
Effect-idle e = omega arith

abbrev pub IsTotal : Config → State → Type 0
IsTotal cfg s = (idle_sum s.shards ≤ s.total_count) × (s.total_count ≤ cfg.max_size)

pub Effect-totals :
    {cfg : Config} {s : State} {op : Op} {t : State}
    → Effect cfg s op t
    → total_loss op ≤ s.total_count - idle_sum s.shards
    → IsTotal cfg s
    → (t.total_count - idle_sum t.shards + total_loss op
        ≡ s.total_count - idle_sum s.shards + total_gain op)
      × IsTotal cfg t
Effect-totals (total_up h) l f = omega arith
Effect-totals e l f = omega (arith, Effect-idle e)

abbrev pub IsShared : State → Type 0
IsShared s = idle_sum s.shards + s.others ≤ s.budget.current

pub Effect-budgets :
    {cfg : Config} {s : State} {op : Op} {t : State}
    → Effect cfg s op t
    → budget_loss op ≤ s.budget.current - (idle_sum s.shards + s.others)
    → IsShared s
    → (t.budget.current - (idle_sum t.shards + t.others) + budget_loss op
        ≡ s.budget.current - (idle_sum s.shards + s.others) + budget_gain op)
      × IsShared t
Effect-budgets {s = s} (other_down h) l f = ground arith
Effect-budgets e l f = omega (arith, Effect-idle e)
