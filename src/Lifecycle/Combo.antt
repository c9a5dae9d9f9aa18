-- ===== src/Lifecycle/Combo.antt =====
-- `src/app/combo_query_limiter.hpp`: a bound on fallback queries in flight, and the race between
-- a query and its deadline. The counter is a `size_t` that does not reach its top.
pub mod InFlight
pub mod Race
use asio_owen.Prelude.{
  ℕ, ◌+◌, ◌-◌, ◌≤◌, ◌<◌, Bool, true, false, ◌==◌, if◌then◌else◌, ◌≡◌, List, [], ◌∷◌,
}
use asio_owen.Lifecycle.Handlers.{fetch_sub_one}

pub record Counter : Type 0 where
  pub max_in_flight : ℕ
  pub in_flight : ℕ

unfoldable pub make_counter : ℕ → Counter
make_counter max_in_flight = record {
  max_in_flight = if max_in_flight == 0 then 1 else max_in_flight;
  in_flight = 0;
}

pub data Place : Type 0 where
  -- With no permit.
  without : Place
  -- In `try_acquire`, with the counter as it was last seen.
  seen : ℕ → Place
  trying : ℕ → Place
  -- With a permit.
  permitted : Place

pub data Move (s : Counter) : Place → Counter → Place → Type 0 where
  load : Move s without s (seen s.in_flight)
  full : {n : ℕ} → s.max_in_flight ≤ n → Move s (seen n) s without
  room : {n : ℕ} → n < s.max_in_flight → Move s (seen n) s (trying n)
  acquired :
      {n : ℕ} → s.in_flight ≡ n → Move s (trying n) (record s { in_flight = n + 1 }) permitted
  missed : {n : ℕ} → Move s (trying n) s (seen s.in_flight)
  release : Move s permitted (record s { in_flight = fetch_sub_one s.in_flight }) without

abbrev pub has_permit : Place → ℕ
has_permit permitted = 1
has_permit _ = 0

-- `ComboQueryState`, whose calls hold a mutex.
pub data Winner : Type 0 where
  pending query timeout : Winner

pub record QueryState : Type 0 where
  pub winner : Winner
  -- The permit is still held.
  pub permit : Bool
  -- How often the counter was decremented.
  pub releases : ℕ

-- `permit_.release()`: the counter is taken out of the permit, so that it counts once.
unfoldable pub release_permit : QueryState → QueryState
release_permit s = record s {
  permit = false;
  releases = if s.permit then s.releases + 1 else s.releases;
}

unfoldable pub claim_query_as : Winner → QueryState → QueryState × Bool
unfolding release_permit
claim_query_as pending s = (release_permit (record s { winner = query }), true)
claim_query_as timeout s = (release_permit s, false)
claim_query_as query s = (s, false)

abbrev pub claim_query : QueryState → QueryState × Bool
claim_query s = claim_query_as s.winner s

unfoldable pub claim_timeout_as : Winner → QueryState → QueryState × Bool
claim_timeout_as pending s = (record s { winner = timeout }, true)
claim_timeout_as query s = (s, false)
claim_timeout_as timeout s = (s, false)

abbrev pub claim_timeout : QueryState → QueryState × Bool
claim_timeout s = claim_timeout_as s.winner s

pub data Claim : Type 0 where
  by_query by_timeout : Claim

abbrev pub claim : Claim → QueryState → QueryState × Bool
claim by_query s = claim_query s
claim by_timeout s = claim_timeout s

-- The calls in the order in which they take the mutex: the answers, and the final state.
unfoldable pub race : List Claim → QueryState → List Bool × QueryState
unfolding claim_query_as claim_timeout_as
race [] s = ([], s)
race (c ∷ cs) s = let (s', won) = claim c s in let (answers, t) = race cs s' in (won ∷ answers, t)
