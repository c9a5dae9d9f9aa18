-- ===== src/Lifecycle/Sessions.antt =====
-- `src/common/shutdown_coordinator.hpp`: sessions are counted in, and out again before the process
-- stops. One `Move` is one atomic operation; a weak compare-exchange may fail for no reason.
pub mod Drain
use asio_owen.Prelude.{ℕ, ◌+◌, ◌-◌, ◌≤◌, ◌<◌, Bool, true, false, ◌≡◌, ◌≢◌, List, []}
use asio_owen.Lifecycle.Threads.{World}

pub data Phase : Type 0 where
  running draining stopped : Phase

pub record Coordinator : Type 0 where
  pub phase : Phase
  pub active_sessions : ℕ
  pub capacity_rejections : ℕ

-- Where a thread stands.
pub data Place : Type 0 where
  -- Outside, with no lease.
  outside : Place
  -- In `try_enter_session`, before the load of the counter.
  admitted : Place
  -- Before the test of the capacity, with the counter as it was last seen.
  seen : ℕ → Place
  -- Before the compare-exchange.
  trying : ℕ → Place
  -- Counted in, before the second look at the phase.
  counted : Place
  -- With a lease.
  holding : Place
  -- In `leave_session`, before the load, and before the compare-exchange.
  leaving : Place
  leaving_from : ℕ → Place
  -- In the shutdown code.
  control : Place

module _ (max_sessions : ℕ) where
  pub data Move (s : Coordinator) : Place → Coordinator → Place → Type 0 where
    -- `if (phase() != Phase::Running) return {};`
    pass : s.phase ≡ running → Move s outside s admitted
    refused : s.phase ≢ running → Move s outside s outside
    load : Move s admitted s (seen s.active_sessions)
    -- `max_sessions != 0 && current >= max_sessions`
    full :
        {n : ℕ}
        → max_sessions ≢ 0
        → max_sessions ≤ n
        → Move s (seen n) (record s { capacity_rejections = s.capacity_rejections + 1 }) outside
    room : {n : ℕ} → (max_sessions ≢ 0 → n < max_sessions) → Move s (seen n) s (trying n)
    entered :
        {n : ℕ}
        → s.active_sessions ≡ n
        → Move s (trying n) (record s { active_sessions = n + 1 }) counted
    missed : {n : ℕ} → Move s (trying n) s (seen s.active_sessions)
    -- The second look at the phase.
    granted : s.phase ≡ running → Move s counted s holding
    too_late : s.phase ≢ running → Move s counted s leaving
    -- The lease is released.
    release : Move s holding s leaving
    load_leaving : Move s leaving s (leaving_from s.active_sessions)
    -- `current != 0` fails: nothing is subtracted.
    nothing_left : {n : ℕ} → n ≡ 0 → Move s (leaving_from n) s outside
    left :
        {n : ℕ}
        → n ≢ 0
        → s.active_sessions ≡ n
        → Move s (leaving_from n) (record s { active_sessions = n - 1 }) outside
    missed_leaving : {n : ℕ} → n ≢ 0 → Move s (leaving_from n) s (leaving_from s.active_sessions)
    begin_draining : s.phase ≡ running → Move s control (record s { phase = draining }) control
    begin_draining_fails : s.phase ≢ running → Move s control s control
    mark_stopped : Move s control (record s { phase = stopped }) control

-- `active_sessions() == 0`, on which `wait_for_drain` returns true.
abbrev pub IsDrained : Coordinator → Type 0
IsDrained s = s.active_sessions ≡ 0

abbrev pub fresh : Coordinator
fresh = record { phase = running; active_sessions = 0; capacity_rejections = 0 }

-- Threads that have counted themselves in and not yet out.
abbrev pub in_count : Place → ℕ
in_count counted = 1
in_count holding = 1
in_count leaving = 1
in_count (leaving_from _) = 1
in_count _ = 0

abbrev pub holds : Place → ℕ
holds holding = 1
holds _ = 0
