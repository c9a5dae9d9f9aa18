-- ===== src/Lifecycle/Handlers.antt =====
-- `src/http/route_lifecycle.hpp`: handlers are counted while routes are being swapped out. The
-- counter is a `uint64_t`; there are fewer than 2 ^ 64 threads, so it does not pass its top.
pub mod Drain
use asio_owen.Prelude.{ℕ, ◌+◌, ◌-◌, ◌^◌, ◌==◌, if◌then◌else◌, ◌≡◌, ◌≢◌}
use asio_owen.Lifecycle.Sessions.{Phase, running, draining, stopped}

pub record RouteLifecycle : Type 0 where
  pub phase : Phase
  pub active_handlers : ℕ

-- `fetch_sub(1)`, which wraps below zero.
unfoldable pub fetch_sub_one : ℕ → ℕ
fetch_sub_one n = if n == 0 then 2 ^ 64 - 1 else n - 1

pub data Place : Type 0 where
  outside : Place
  -- Between the first look at the phase and the `fetch_add`.
  admitted : Place
  -- Before the second look.
  added : Place
  -- The second look failed; before the `fetch_sub` that takes it back.
  undoing : Place
  handling : Place
  control : Place

pub data Move (s : RouteLifecycle) : Place → RouteLifecycle → Place → Type 0 where
  pass : s.phase ≡ running → Move s outside s admitted
  refused : s.phase ≢ running → Move s outside s outside
  add : Move s admitted (record s { active_handlers = s.active_handlers + 1 }) added
  granted : s.phase ≡ running → Move s added s handling
  too_late : s.phase ≢ running → Move s added s undoing
  undo : Move s undoing (record s { active_handlers = fetch_sub_one s.active_handlers }) outside
  release : Move s handling (record s { active_handlers = fetch_sub_one s.active_handlers }) outside
  begin_draining : s.phase ≡ running → Move s control (record s { phase = draining }) control
  begin_draining_fails : s.phase ≢ running → Move s control s control
  mark_stopped : Move s control (record s { phase = stopped }) control

abbrev pub in_count : Place → ℕ
in_count added = 1
in_count undoing = 1
in_count handling = 1
in_count _ = 0

abbrev pub handles : Place → ℕ
handles handling = 1
handles _ = 0

abbrev pub fresh : RouteLifecycle
fresh = record { phase = running; active_handlers = 0 }
