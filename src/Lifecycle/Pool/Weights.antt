-- ===== src/Lifecycle/Pool/Weights.antt =====
-- What a thread has of a pool at each place, and how an operation changes it.
use asio_owen.Prelude.{ℕ, ◌+◌, ◌≤◌, ◌==◌, Bool, true, false, if◌then◌else◌, ◌≡◌, arith}
use asio_owen.Lifecycle.Pool.{
  Config, Op, Place, ready, evicted, evicted_budget, popped, reserved, refused, connecting, using,
  closing_budget, leaving, Edge, not_running,
}

abbrev pub one_if : Bool → ℕ
one_if true = 1
one_if false = 0

-- Whether it has a slot in flight.
abbrev pub flights : Place → ℕ
flights (ready slot) = one_if slot
flights (evicted slot) = one_if slot
flights (evicted_budget slot) = one_if slot
flights _ = 1

-- Whether it has a connection in the total beside the idle ones.
abbrev pub totals : Place → ℕ
totals (ready slot) = 0
totals (evicted_budget slot) = 0
totals closing_budget = 0
totals leaving = 0
totals _ = 1

abbrev pub budgets : Place → ℕ
budgets (ready slot) = 0
budgets reserved = 0
budgets refused = 0
budgets leaving = 0
budgets _ = 1

-- Whether it has a connection of the shard.
abbrev pub holds : ℕ → Place → ℕ
holds j (popped c) = (if c.shard_idx == j then 1 else 0)
holds j (connecting c) = (if c.shard_idx == j then 1 else 0)
holds j (using c) = (if c.shard_idx == j then 1 else 0)
holds j _ = 0

-- What an operation adds to these, and what it takes away.
abbrev pub flight_gain : Op → ℕ
flight_gain Op.flight_up = 1
flight_gain _ = 0

abbrev pub flight_loss : Op → ℕ
flight_loss Op.flight_down = 1
flight_loss _ = 0

abbrev pub total_gain : Op → ℕ
total_gain Op.total_up = 1
total_gain (Op.pop_closed i c) = 1
total_gain (Op.pop_used i c) = 1
total_gain _ = 0

abbrev pub total_loss : Op → ℕ
total_loss Op.total_down = 1
total_loss (Op.pooled c) = 1
total_loss _ = 0

abbrev pub budget_gain : Op → ℕ
budget_gain Op.budget_up = 1
budget_gain (Op.pop_closed i c) = 1
budget_gain (Op.pop_used i c) = 1
budget_gain _ = 0

abbrev pub budget_loss : Op → ℕ
budget_loss Op.budget_down = 1
budget_loss (Op.pooled c) = 1
budget_loss _ = 0

abbrev pub hold_gain : ℕ → Op → ℕ
hold_gain j (Op.pop_used i c) = (if c.shard_idx == j then 1 else 0)
hold_gain j (Op.made c) = (if c.shard_idx == j then 1 else 0)
hold_gain j _ = 0

abbrev pub hold_loss : ℕ → Op → ℕ
hold_loss j (Op.lost c) = (if c.shard_idx == j then 1 else 0)
hold_loss j (Op.pooled c) = (if c.shard_idx == j then 1 else 0)
hold_loss j _ = 0

-- A thread has what an operation takes away, and ends with the rest and what it adds.
abbrev pub Follows : (Place → ℕ) → ℕ → ℕ → Place → Place → Type 0
Follows weight gain loss p q = (loss ≤ weight p) × (weight q + loss ≡ weight p + gain)

pub Edge-flights :
    {cfg : Config} {p : Place} {op : Op} {q : Place}
    → Edge cfg p op q
    → Follows flights (flight_gain op) (flight_loss op) p q
Edge-flights not_running = omega arith
Edge-flights e = omega arith

pub Edge-totals :
    {cfg : Config} {p : Place} {op : Op} {q : Place}
    → Edge cfg p op q
    → Follows totals (total_gain op) (total_loss op) p q
Edge-totals not_running = omega arith
Edge-totals e = omega arith

pub Edge-budgets :
    {cfg : Config} {p : Place} {op : Op} {q : Place}
    → Edge cfg p op q
    → Follows budgets (budget_gain op) (budget_loss op) p q
Edge-budgets not_running = omega arith
Edge-budgets e = omega arith

pub Edge-holds :
    (j : ℕ) {cfg : Config} {p : Place} {op : Op} {q : Place}
    → Edge cfg p op q
    → Follows (holds j) (hold_gain j op) (hold_loss j op) p q
Edge-holds j not_running = omega arith
Edge-holds j e = omega arith
