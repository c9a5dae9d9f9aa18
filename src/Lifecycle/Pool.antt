-- ===== src/Lifecycle/Pool.antt =====
-- `HttpPool` of `src/http/http_pool.hpp`: the connections of a pool, which threads acquire and
-- release. Each section under a shard's mutex and each atomic counter operation is one `Effect` on
-- the shared state; an `Edge` is the way of a thread through `acquire`, the releases, eviction and
-- `shutdown` from one of them to the next. A loop of exchanges is the exchange that succeeds.
pub mod Weights
pub mod Shards
pub mod Effects
pub mod PerShard
pub mod Exact
use asio_owen.Prelude.{
  ℕ, suc, zero, ◌+◌, ◌-◌, ◌*◌, ◌≤◌, ◌<◌, ◌==◌, Bool, true, false, ◌||◌, ◌&&◌, not, List, [], ◌∷◌,
  ◌++◌, if◌then◌else◌, Option, some, none, get_elem?, length, ◌≡◌, ◌≢◌, ◌⊎◌,
}
use asio_owen.Lifecycle.Budget.{Budget}
use asio_owen.Lifecycle.Handlers.{fetch_sub_one}

pub record HttpConn : Type 0 where
  -- Its address, by which the shard tracks it.
  pub name : ℕ
  pub shard_idx : ℕ
  pub last_used_at : ℕ
  pub is_open : Bool
  pub connection_close : Bool
  pub has_unread : Bool

pub record Shard : Type 0 where
  pub idle : List HttpConn
  pub active : List ℕ
  pub total : ℕ
  pub in_flight : ℕ

pub record Config : Type 0 where
  pub max_size : ℕ
  -- 0 for no limit.
  pub max_concurrent : ℕ
  pub idle_timeout_sec : ℕ

-- `State`, with the connections that other pools have out of the budget they share.
pub record State : Type 0 where
  pub running : Bool
  pub shards : List Shard
  pub total_count : ℕ
  pub in_flight_count : ℕ
  pub budget : Budget
  pub others : ℕ

-- `xs[i] = x`.
abbrev pub set_shard : ℕ → Shard → List Shard → List Shard
set_shard i x [] = []
set_shard zero x (y ∷ ys) = x ∷ ys
set_shard (suc i) x (y ∷ ys) = y ∷ set_shard i x ys

abbrev pub erase_name : ℕ → List ℕ → List ℕ
erase_name n [] = []
erase_name n (m ∷ ms) = let rest = m ∷ erase_name n ms in if m == n then ms else rest

-- What happens to the shared state.
pub data Op : Type 0 where
  stopped : Op
  stop : Op
  flight_up : Op
  flight_full : Op
  flight_down : Op
  total_up : Op
  total_full : Op
  total_down : Op
  budget_up : Op
  budget_full : Op
  budget_down : Op
  -- The first idle connection of a shard is taken out, to be closed or to be used.
  pop_closed : ℕ → HttpConn → Op
  pop_used : ℕ → HttpConn → Op
  track : HttpConn → Op
  untrack : HttpConn → Op
  -- A new connection is tracked, or one that was in use is given up or put among the idle ones.
  made : HttpConn → Op
  lost : HttpConn → Op
  pooled : HttpConn → Op
  nothing : Op
  -- Other pools, and whoever sets the limit.
  other_up : Op
  other_down : Op
  set_limit : ℕ → Op

abbrev pub HasRoom : ℕ → ℕ → Type 0
HasRoom limit n = (limit ≡ 0) ⊎ (n < limit)

abbrev pub with_shard : ℕ → Shard → State → State
with_shard i x s = record s { shards = set_shard i x s.shards }

abbrev pub with_current : ℕ → State → State
with_current n s = record s { budget = record s.budget { current = n } }

-- A shard's `--` wraps at 2 ^ 64, as `fetch_sub` of an atomic does.
pub data Effect (cfg : Config) (s : State) : Op → State → Type 0 where
  stopped : s.running ≡ false → Effect cfg s Op.stopped s
  stop : Effect cfg s Op.stop (record s { running = false })
  flight_up :
      HasRoom cfg.max_concurrent s.in_flight_count
      → Effect cfg s Op.flight_up (record s { in_flight_count = s.in_flight_count + 1 })
  flight_full :
      cfg.max_concurrent ≢ 0
      → cfg.max_concurrent ≤ s.in_flight_count
      → Effect cfg s Op.flight_full s
  -- `decrement_counter` leaves zero as it is, which `-` does.
  flight_down : Effect cfg s Op.flight_down (record s { in_flight_count = s.in_flight_count - 1 })
  total_up :
      s.total_count < cfg.max_size
      → Effect cfg s Op.total_up (record s { total_count = s.total_count + 1 })
  total_full : cfg.max_size ≤ s.total_count → Effect cfg s Op.total_full s
  total_down : Effect cfg s Op.total_down (record s { total_count = s.total_count - 1 })
  -- With the limit as it was loaded before the exchange.
  budget_up :
      {limit : ℕ}
      → HasRoom limit s.budget.current
      → Effect cfg s Op.budget_up (with_current (s.budget.current + 1) s)
  budget_full : {limit : ℕ} → limit ≢ 0 → limit ≤ s.budget.current → Effect cfg s Op.budget_full s
  budget_down : Effect cfg s Op.budget_down (with_current (s.budget.current - 1) s)
  pop_closed :
      {i : ℕ} {c : HttpConn} {sh : Shard} {rest : List HttpConn}
      → get_elem? s.shards i ≡ some sh
      → sh.idle ≡ c ∷ rest
      → Effect cfg s
          (Op.pop_closed i c)
          (with_shard i (record sh { idle = rest; total = fetch_sub_one sh.total }) s)
  pop_used :
      {i : ℕ} {c : HttpConn} {sh : Shard} {rest : List HttpConn}
      → get_elem? s.shards i ≡ some sh
      → sh.idle ≡ c ∷ rest
      → Effect cfg s
          (Op.pop_used i c)
          (with_shard i (record sh { idle = rest; in_flight = sh.in_flight + 1 }) s)
  track :
      {c : HttpConn} {sh : Shard}
      → get_elem? s.shards c.shard_idx ≡ some sh
      → Effect cfg s
          (Op.track c)
          (with_shard c.shard_idx (record sh { active = c.name ∷ sh.active }) s)
  untrack :
      {c : HttpConn} {sh : Shard}
      → get_elem? s.shards c.shard_idx ≡ some sh
      → Effect cfg s
          (Op.untrack c)
          (with_shard c.shard_idx (record sh { active = erase_name c.name sh.active }) s)
  made :
      {c : HttpConn} {sh : Shard}
      → get_elem? s.shards c.shard_idx ≡ some sh
      → Effect cfg s (Op.made c) (
          with_shard c.shard_idx
            (record sh {
              active = c.name ∷ sh.active;
              total = sh.total + 1;
              in_flight = sh.in_flight + 1;
            })
            s)
  lost :
      {c : HttpConn} {sh : Shard}
      → get_elem? s.shards c.shard_idx ≡ some sh
      → Effect cfg s (Op.lost c) (
          with_shard c.shard_idx
            (record sh {
              active = erase_name c.name sh.active;
              total = fetch_sub_one sh.total;
              in_flight = fetch_sub_one sh.in_flight;
            })
            s)
  pooled :
      {c : HttpConn} {sh : Shard}
      → get_elem? s.shards c.shard_idx ≡ some sh
      → Effect cfg s (Op.pooled c) (
          with_shard c.shard_idx
            (record sh {
              active = erase_name c.name sh.active;
              idle = sh.idle ++ c ∷ [];
              in_flight = fetch_sub_one sh.in_flight;
            })
            s)
  nothing : Effect cfg s Op.nothing s
  other_up :
      {limit : ℕ}
      → HasRoom limit s.budget.current
      → Effect cfg s Op.other_up
          (record (with_current (s.budget.current + 1) s) { others = s.others + 1 })
  other_down :
      s.others ≢ 0
      → Effect cfg s Op.other_down
          (record (with_current (s.budget.current - 1) s) { others = s.others - 1 })
  set_limit :
      {n : ℕ} → Effect cfg s (Op.set_limit n) (record s { budget = record s.budget { limit = n } })

-- Where a thread is. It may have a slot in flight while it looks for a connection.
pub data Place : Type 0 where
  ready : Bool → Place
  -- An idle connection was closed, and is still in the total and the budget, or in the budget.
  evicted : Bool → Place
  evicted_budget : Bool → Place
  popped : HttpConn → Place
  reserved : Place
  budgeted : Place
  refused : Place
  connecting : HttpConn → Place
  -- With a connection.
  using : HttpConn → Place
  -- A connection was given up, or put back.
  closing : Place
  closing_budget : Place
  dropped : Place
  leaving : Place

abbrev pub is_unfit : HttpConn → Bool
is_unfit c = c.connection_close || c.has_unread

pub data Edge (cfg : Config) : Place → Op → Place → Type 0 where
  not_running : Edge cfg (ready false) Op.stopped (ready false)
  enter : Edge cfg (ready false) Op.flight_up (ready true)
  too_many : Edge cfg (ready false) Op.flight_full (ready false)
  -- `evict_stale_idle`, in `acquire` and from `evict_stale`; times are in nanoseconds.
  stale :
      {slot : Bool} {i now : ℕ} {c : HttpConn}
      → c.last_used_at + cfg.idle_timeout_sec * 1000000000 ≤ now
      → Edge cfg (ready slot) (Op.pop_closed i c) (evicted slot)
  discard :
      {i : ℕ} {c : HttpConn}
      → is_unfit c ≡ true
      → Edge cfg (ready true) (Op.pop_closed i c) (evicted true)
  evicted_total : {slot : Bool} → Edge cfg (evicted slot) Op.total_down (evicted_budget slot)
  evicted_all : {slot : Bool} → Edge cfg (evicted_budget slot) Op.budget_down (ready slot)
  -- An allocation fails.
  pop_failed : Edge cfg (ready true) Op.nothing leaving
  reuse :
      {i : ℕ} {c : HttpConn}
      → is_unfit c ≡ false
      → Edge cfg (ready true) (Op.pop_used i c) (popped c)
  tracked : {c : HttpConn} → Edge cfg (popped c) (Op.track c) (using c)
  track_failed : {c : HttpConn} → Edge cfg (popped c) (Op.lost c) closing
  reserve : Edge cfg (ready true) Op.total_up reserved
  pool_full : Edge cfg (ready true) Op.total_full leaving
  take_budget : Edge cfg reserved Op.budget_up budgeted
  no_budget : Edge cfg reserved Op.budget_full refused
  undo_total : Edge cfg refused Op.total_down leaving
  create : {c : HttpConn} → Edge cfg budgeted (Op.made c) (connecting c)
  create_failed : Edge cfg budgeted Op.nothing closing
  connected :
      {c : HttpConn} (now : ℕ)
      → Edge cfg (connecting c) Op.nothing (using (record c { last_used_at = now }))
  connect_failed : {c : HttpConn} → Edge cfg (connecting c) (Op.lost c) closing
  -- The owner reads and writes on the connection, which leaves its shard and its address alone.
  use_it :
      {c : HttpConn} (still_open close unread : Bool)
      → Edge cfg
          (using c)
          Op.nothing
          (using (record c { is_open = still_open; connection_close = close; has_unread = unread }))
  untracked : {c : HttpConn} → Edge cfg (using c) (Op.untrack c) (using c)
  release_closed :
      {c : HttpConn}
      → (c.is_open && not (is_unfit c)) ≡ false
      → Edge cfg (using c) (Op.lost c) closing
  release_pooled :
      {c : HttpConn} (now : ℕ)
      → (c.is_open && not (is_unfit c)) ≡ true
      → Edge cfg (using c) (Op.pooled (record c { last_used_at = now })) leaving
  -- The list of idle connections cannot grow.
  release_dropped :
      {c : HttpConn}
      → (c.is_open && not (is_unfit c)) ≡ true
      → Edge cfg (using c) (Op.lost c) dropped
  release_bad : {c : HttpConn} → Edge cfg (using c) (Op.lost c) closing
  dropped_flight : Edge cfg dropped Op.flight_down (evicted false)
  close_total : Edge cfg closing Op.total_down closing_budget
  close_budget : Edge cfg closing_budget Op.budget_down leaving
  leave : Edge cfg leaving Op.flight_down (ready false)
  -- `shutdown` closes the idle connections.
  shutdown : Edge cfg (ready false) Op.stop (ready false)
  shutdown_idle :
      {i : ℕ} {c : HttpConn} → Edge cfg (ready false) (Op.pop_closed i c) (evicted false)
  other_acquires : Edge cfg (ready false) Op.other_up (ready false)
  other_releases : Edge cfg (ready false) Op.other_down (ready false)
  limit_set : {n : ℕ} → Edge cfg (ready false) (Op.set_limit n) (ready false)

pub data Move (cfg : Config) (s : State) (p : Place) (t : State) (q : Place) : Type 0 where
  move : {op : Op} → Effect cfg s op t → Edge cfg p op q → Move cfg s p t q
