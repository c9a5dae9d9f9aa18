-- ===== src/Tests/Counters.antt =====
-- Threads on the shared counters, a few steps each.
use asio_owen.Prelude.{
  ℕ, ◌≤◌, true, false, if◌then◌else◌, List, [], ◌∷◌, map, any, ◌≡◌, ◌⊎◌, inl, inr, refl, some,
  arith,
}
use asio_owen.Lifecycle.Threads.{World, total, Reach, start, next, turn}
use asio_owen.Lifecycle.Sessions
use asio_owen.Lifecycle.Handlers
use asio_owen.Lifecycle.Combo
use asio_owen.Lifecycle.Combo.{race, Claim, by_query, by_timeout}
use asio_owen.Lifecycle.Combo.Race.{begin, is_query, race-begin}
use asio_owen.Lifecycle.Budget
use asio_owen.Lifecycle.Budget.{FdBudget}
use asio_owen.Lifecycle.Budget.Connections

abbrev sessions : Sessions.Phase → ℕ → Sessions.Place → World Sessions.Coordinator Sessions.Place
sessions phase n p = record {
  shared = record { phase = phase; active_sessions = n; capacity_rejections = 0 };
  threads = p ∷ Sessions.control ∷ [];
}

abbrev session_threads : List Sessions.Place
session_threads = Sessions.outside ∷ Sessions.control ∷ []

sessions_outside : Sessions.Drain.AllOutside 2 session_threads
sessions_outside = (inl refl, (inr refl, tt))

session_1 :
    Reach
      (Sessions.Move 2)
      (sessions Sessions.running 0 Sessions.outside)
      (sessions Sessions.running 0 Sessions.admitted)
session_1 = next start (
    turn [] (Sessions.control ∷ []) Sessions.outside Sessions.admitted refl refl
      (Sessions.pass refl))

session_2 :
    Reach
      (Sessions.Move 2)
      (sessions Sessions.running 0 Sessions.outside)
      (sessions Sessions.running 0 (Sessions.seen 0))
session_2 =
    next session_1 (
      turn [] (Sessions.control ∷ []) Sessions.admitted (Sessions.seen 0) refl refl (Sessions.load))

session_3 :
    Reach
      (Sessions.Move 2)
      (sessions Sessions.running 0 Sessions.outside)
      (sessions Sessions.running 0 (Sessions.trying 0))
session_3 = next session_2 (
    turn [] (Sessions.control ∷ []) (Sessions.seen 0) (Sessions.trying 0) refl refl
      (Sessions.room (λ _. omega arith)))

session_4 :
    Reach
      (Sessions.Move 2)
      (sessions Sessions.running 0 Sessions.outside)
      (sessions Sessions.running 1 Sessions.counted)
session_4 = next session_3 (
    turn [] (Sessions.control ∷ []) (Sessions.trying 0) Sessions.counted refl refl
      (Sessions.entered refl))

session_5 :
    Reach
      (Sessions.Move 2)
      (sessions Sessions.running 0 Sessions.outside)
      (sessions Sessions.running 1 Sessions.holding)
session_5 = next session_4 (
    turn [] (Sessions.control ∷ []) Sessions.counted Sessions.holding refl refl
      (Sessions.granted refl))

session_6 :
    Reach
      (Sessions.Move 2)
      (sessions Sessions.running 0 Sessions.outside)
      (sessions Sessions.draining 1 Sessions.holding)
session_6 = next session_5 (
    turn (Sessions.holding ∷ []) [] Sessions.control Sessions.control refl refl
      (Sessions.begin_draining refl))

session_7 :
    Reach
      (Sessions.Move 2)
      (sessions Sessions.running 0 Sessions.outside)
      (sessions Sessions.draining 1 Sessions.leaving)
session_7 =
    next session_6 (
      turn [] (Sessions.control ∷ []) Sessions.holding Sessions.leaving refl refl
        (Sessions.release))

session_8 :
    Reach
      (Sessions.Move 2)
      (sessions Sessions.running 0 Sessions.outside)
      (sessions Sessions.draining 1 (Sessions.leaving_from 1))
session_8 = next session_7 (
    turn [] (Sessions.control ∷ []) Sessions.leaving (Sessions.leaving_from 1) refl refl
      (Sessions.load_leaving))

session_9 :
    Reach
      (Sessions.Move 2)
      (sessions Sessions.running 0 Sessions.outside)
      (sessions Sessions.draining 0 Sessions.outside)
session_9 = next session_8 (
    turn [] (Sessions.control ∷ []) (Sessions.leaving_from 1) Sessions.outside refl refl
      (Sessions.left (λ e. absurd (omega arith)) refl))

active_sessions_exact_example :
    (◌≡◌ {A = ℕ} 1 (total Sessions.in_count (Sessions.holding ∷ Sessions.control ∷ [])))
    × (total Sessions.holds (Sessions.holding ∷ Sessions.control ∷ []) ≤ 1)
    × ((◌≡◌ {A = ℕ} 2 0) ⊎ (1 ≤ 2))
active_sessions_exact_example =
    Sessions.Drain.active_sessions_exact 2 session_threads sessions_outside session_5

session_later :
    Reach
      (Sessions.Move 2)
      (sessions Sessions.draining 0 Sessions.outside)
      (sessions Sessions.stopped 0 Sessions.outside)
session_later = next start (
    turn (Sessions.outside ∷ []) [] Sessions.control Sessions.control refl refl
      Sessions.mark_stopped)

drained_for_good_example : total Sessions.holds session_threads ≡ 0
drained_for_good_example =
    Sessions.Drain.drained_for_good 2 session_threads sessions_outside session_9 (λ e. cc) refl
      session_later

abbrev handlers : Sessions.Phase → ℕ → Handlers.Place → World Handlers.RouteLifecycle Handlers.Place
handlers phase n p = record {
  shared = record { phase = phase; active_handlers = n };
  threads = p ∷ Handlers.control ∷ [];
}

abbrev handler_threads : List Handlers.Place
handler_threads = Handlers.outside ∷ Handlers.control ∷ []

handlers_outside : Handlers.Drain.AllOutside handler_threads
handlers_outside = (inl refl, (inr refl, tt))

handler_1 :
    Reach Handlers.Move
      (handlers Sessions.running 0 Handlers.outside)
      (handlers Sessions.running 0 Handlers.admitted)
handler_1 = next start (
    turn [] (Handlers.control ∷ []) Handlers.outside Handlers.admitted refl refl
      (Handlers.pass refl))

handler_2 :
    Reach Handlers.Move
      (handlers Sessions.running 0 Handlers.outside)
      (handlers Sessions.running 1 Handlers.added)
handler_2 =
    next handler_1
      (turn [] (Handlers.control ∷ []) Handlers.admitted Handlers.added refl refl (Handlers.add))

handler_3 :
    Reach Handlers.Move
      (handlers Sessions.running 0 Handlers.outside)
      (handlers Sessions.running 1 Handlers.handling)
handler_3 = next handler_2 (
    turn [] (Handlers.control ∷ []) Handlers.added Handlers.handling refl refl
      (Handlers.granted refl))

handler_4 :
    Reach Handlers.Move
      (handlers Sessions.running 0 Handlers.outside)
      (handlers Sessions.draining 1 Handlers.handling)
handler_4 = next handler_3 (
    turn (Handlers.handling ∷ []) [] Handlers.control Handlers.control refl refl
      (Handlers.begin_draining refl))

handler_later :
    Reach Handlers.Move
      (handlers Sessions.draining 1 Handlers.handling)
      (handlers Sessions.draining 0 Handlers.outside)
unfolding Handlers.fetch_sub_one
handler_later =
    next start (
      turn [] (Handlers.control ∷ []) Handlers.handling Handlers.outside refl refl Handlers.release)

no_new_handlers_example :
    (total Handlers.handles handler_threads
      ≤ total Handlers.handles (Handlers.handling ∷ Handlers.control ∷ []))
    × (total Handlers.handles handler_threads ≤ 1)
no_new_handlers_example =
    Handlers.Drain.no_new_handlers handler_threads handlers_outside handler_4 (λ e. cc)
      handler_later

abbrev permits : ℕ → Combo.Place → World Combo.Counter Combo.Place
permits n p = record {
  shared = record { max_in_flight = 1; in_flight = n };
  threads = p ∷ Combo.without ∷ [];
}

permit_1 :
    Reach Combo.Move
      (record { shared = Combo.make_counter 0; threads = Combo.without ∷ Combo.without ∷ [] })
      (permits 0 (Combo.seen 0))
unfolding Combo.make_counter
permit_1 =
    next start (turn [] (Combo.without ∷ []) Combo.without (Combo.seen 0) refl refl (Combo.load))

permit_2 :
    Reach Combo.Move
      (record { shared = Combo.make_counter 0; threads = Combo.without ∷ Combo.without ∷ [] })
      (permits 0 (Combo.trying 0))
permit_2 = next permit_1 (
    turn [] (Combo.without ∷ []) (Combo.seen 0) (Combo.trying 0) refl refl
      (Combo.room (omega arith)))

permit_3 :
    Reach Combo.Move
      (record { shared = Combo.make_counter 0; threads = Combo.without ∷ Combo.without ∷ [] })
      (permits 1 Combo.permitted)
permit_3 =
    next permit_2 (
      turn [] (Combo.without ∷ []) (Combo.trying 0) Combo.permitted refl refl (Combo.acquired refl))

race-begin_example :
    ((race (by_timeout ∷ by_query ∷ []) begin).0 ≡ true ∷ map (λ _. false) (by_query ∷ []))
    × ((race (by_timeout ∷ by_query ∷ []) begin).1.releases
        ≡ (if any is_query (by_timeout ∷ by_query ∷ []) then 1 else 0))
race-begin_example = race-begin by_timeout (by_query ∷ [])

abbrev connections : ℕ → ℕ → Budget.Place → World Budget.Budget Budget.Place
connections limit n p = record {
  shared = record { current = n; limit = limit };
  threads = p ∷ Budget.control ∷ [];
}

connection_1 :
    Reach
      (Budget.Move (Connections.IsLimit (some 3)))
      (connections 2 0 Budget.idle)
      (connections 2 0 (Budget.seen 0))
connection_1 =
    next start (turn [] (Budget.control ∷ []) Budget.idle (Budget.seen 0) refl refl (Budget.load))

connection_2 :
    Reach
      (Budget.Move (Connections.IsLimit (some 3)))
      (connections 2 0 Budget.idle)
      (connections 2 0 (Budget.trying 0))
connection_2 = next connection_1 (
    turn [] (Budget.control ∷ []) (Budget.seen 0) (Budget.trying 0) refl refl
      (Budget.room (omega arith)))

connection_3 :
    Reach
      (Budget.Move (Connections.IsLimit (some 3)))
      (connections 2 0 Budget.idle)
      (connections 2 1 Budget.connected)
connection_3 = next connection_2 (
    turn [] (Budget.control ∷ []) (Budget.trying 0) Budget.connected refl refl
      (Budget.acquired refl))

connection_4 :
    Reach
      (Budget.Move (Connections.IsLimit (some 3)))
      (connections 2 0 Budget.idle)
      (connections 3 1 Budget.connected)
connection_4 = next connection_3 (
    turn (Budget.connected ∷ []) [] Budget.control Budget.control refl refl
      (Budget.set_limit ((λ e. absurd (omega arith)), omega arith)))

current_exact_example :
    (◌≡◌ {A = ℕ} 1 (total Budget.connections (Budget.connected ∷ Budget.control ∷ [])))
    × Connections.Within (some 3) 1
current_exact_example =
    Connections.current_exact (some 3) 2 (Budget.idle ∷ Budget.control ∷ [])
      ((λ e. absurd (omega arith)), omega arith) (inl refl, (inr refl, tt)) connection_4

abbrev budget : FdBudget
budget = record {
  client_connections = 1000;
  upstream_connections = 500;
  mysql_connections = 16;
  redis_connections = 16;
  reserve = 64;
}
