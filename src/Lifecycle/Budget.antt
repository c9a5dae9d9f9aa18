-- ===== src/Lifecycle/Budget.antt =====
-- `HttpConnectionBudget` of `src/http/http_pool.hpp`, which the upstream pools share, and
-- `src/common/process_fd_budget.hpp`. The counter is a `size_t` that does not reach its top.
pub mod Connections
pub mod Descriptors
use asio_owen.Prelude.{
  ℕ, ◌+◌, ◌-◌, ◌≤◌, ◌<◌, ◌^◌, ltb, leb, Bool, if◌then◌else◌, ◌≡◌, ◌≢◌, List, [], ◌∷◌, Option, none,
  some, Outcome, ok, err, ◌>>=◌,
}

pub record Budget : Type 0 where
  pub current : ℕ
  -- 0 is no limit.
  pub limit : ℕ

pub data Place : Type 0 where
  idle : Place
  -- In `try_acquire`, with `current` as it was last seen, before the load of the limit.
  seen : ℕ → Place
  trying : ℕ → Place
  connected : Place
  -- In `release`, with `current` as it was last seen.
  releasing : Place
  releasing_from : ℕ → Place
  -- The code that reloads the limit.
  control : Place

module _ (IsLimit : ℕ → Type 0) where
  -- One atomic operation of one thread; `set_limit` stores one of the limits.
  pub data Move (s : Budget) : Place → Budget → Place → Type 0 where
    load : Move s idle s (seen s.current)
    full : {n : ℕ} → s.limit ≢ 0 → s.limit ≤ n → Move s (seen n) s idle
    unlimited : {n : ℕ} → s.limit ≡ 0 → Move s (seen n) s (trying n)
    room : {n : ℕ} → n < s.limit → Move s (seen n) s (trying n)
    acquired : {n : ℕ} → s.current ≡ n → Move s (trying n) (record s { current = n + 1 }) connected
    missed : {n : ℕ} → Move s (trying n) s (seen s.current)
    begin_release : Move s connected s releasing
    load_release : Move s releasing s (releasing_from s.current)
    -- `current != 0` fails: nothing is subtracted.
    nothing_left : {n : ℕ} → n ≡ 0 → Move s (releasing_from n) s idle
    released :
        {n : ℕ}
        → n ≢ 0
        → s.current ≡ n
        → Move s (releasing_from n) (record s { current = n - 1 }) idle
    missed_release : {n : ℕ} → n ≢ 0 → Move s (releasing_from n) s (releasing_from s.current)
    set_limit : {n : ℕ} → IsLimit n → Move s control (record s { limit = n }) control

-- Threads with a connection that is counted.
abbrev pub connections : Place → ℕ
connections connected = 1
connections releasing = 1
connections (releasing_from _) = 1
connections _ = 0

pub record FdBudget : Type 0 where
  pub client_connections : ℕ
  pub upstream_connections : ℕ
  pub mysql_connections : ℕ
  pub redis_connections : ℕ
  pub reserve : ℕ

pub data FdError : Type 0 where
  -- `std::overflow_error`
  overflow : FdError
  -- `std::invalid_argument`, with the descriptors required and the limit.
  exceeds : ℕ → ℕ → FdError

-- `std::numeric_limits<uint64_t>::max()`
abbrev pub max_uint64 : ℕ
max_uint64 = 2 ^ 64 - 1

-- The loop of `total`, from a partial sum on.
unfoldable pub add_all : ℕ → List ℕ → Outcome FdError ℕ
add_all result [] = ok result
add_all result (value ∷ values) =
    let rest = add_all (result + value) values in
    if ltb (max_uint64 - result) value then err overflow else rest

abbrev pub fd_values : FdBudget → List ℕ
fd_values b =
    b.client_connections ∷ b.upstream_connections ∷ b.mysql_connections ∷ b.redis_connections
    ∷ b.reserve ∷ []

unfoldable pub total_fds : FdBudget → Outcome FdError ℕ
unfolding add_all
total_fds b = add_all 0 (fd_values b)

abbrev pub validate_required : Option ℕ → ℕ → Outcome {0} FdError Unit
validate_required none required = ok tt
validate_required (some soft_limit) required =
    if leb required soft_limit then ok tt else err (exceeds required soft_limit)

unfoldable pub validate_process_fd_budget : FdBudget → Option ℕ → Outcome {0} FdError Unit
unfolding total_fds
validate_process_fd_budget b soft_limit = total_fds b >>= validate_required soft_limit
