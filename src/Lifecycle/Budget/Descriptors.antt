-- ===== src/Lifecycle/Budget/Descriptors.antt =====
-- The sum of the descriptors is exact or refused.
use asio_owen.Prelude.{ℕ, ◌+◌, ◌^◌, ◌<◌, ltb, if◌then◌else◌, ◌≡◌, List, [], ◌∷◌, ok, err, arith}
use asio_owen.Lifecycle.Budget.{FdBudget, overflow, add_all, fd_values, total_fds}

abbrev pub sum : List ℕ → ℕ
sum [] = 0
sum (n ∷ ns) = n + sum ns

add_all-sum :
    (result : ℕ) (values : List ℕ) (n : ℕ)
    → n ≡ result + sum values
    → result < 2 ^ 64
    → add_all result values ≡ (if ltb n (2 ^ 64) then ok n else err overflow)
unfolding add_all
add_all-sum result [] n e h = ground arith
add_all-sum result (v ∷ values) n e h = ground (arith, add_all-sum (result + v) values n)

-- The total is the sum of the five figures if that is below 2^64, and an overflow if not.
pub total_fds-sum :
    (b : FdBudget)
    → total_fds b
      ≡ (if ltb (sum (fd_values b)) (2 ^ 64) then ok (sum (fd_values b)) else err overflow)
unfolding total_fds
total_fds-sum b = add_all-sum 0 (fd_values b) (sum (fd_values b)) (omega arith) (omega arith)
