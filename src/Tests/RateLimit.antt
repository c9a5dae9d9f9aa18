-- ===== src/Tests/RateLimit.antt =====
-- The rate limiter of `src/security/rate_limiter.hpp` on small inputs, with numbers in thousandths
-- in place of doubles.
use asio_owen.Prelude.{
  ℕ, ◌+◌, ◌-◌, ◌*◌, ◌/◌, ◌%◌, ◌^◌, ltb, leb, Bool, true, false, List, [], ◌∷◌, some, none, Option,
  Bytes, codes, map, pos, pos_part, ◌≡◌, refl, arith, bytes_eq,
}
use asio_owen.Security.Chain.{Decision}
use asio_owen.Security.RateLimit.{Doubles, Shard, check_shard, allow}
use asio_owen.Security.RateLimit.Checks.{Checked, bucket_of, check_shard-Checked}
use asio_owen.Security.RateLimit.Runs.{Call, empty_shard, empty_shard-IsShard, run}

-- A number of eight bytes.
pub record Eight : Type 0 where
  pub b0 : ℕ
  pub b1 : ℕ
  pub b2 : ℕ
  pub b3 : ℕ
  pub b4 : ℕ
  pub b5 : ℕ
  pub b6 : ℕ
  pub b7 : ℕ

abbrev eight : ℕ → Eight
eight n = record {
  b0 = n % 256;
  b1 = n / 256 % 256;
  b2 = n / 256 ^ 2 % 256;
  b3 = n / 256 ^ 3 % 256;
  b4 = n / 256 ^ 4 % 256;
  b5 = n / 256 ^ 5 % 256;
  b6 = n / 256 ^ 6 % 256;
  b7 = n / 256 ^ 7 % 256;
}

abbrev number : Eight → ℕ
number x =
    x.b0
    + 256
      * (x.b1
          + 256 * (x.b2 + 256 * (x.b3 + 256 * (x.b4 + 256 * (x.b5 + 256 * (x.b6 + 256 * x.b7))))))

abbrev from_bytes : Bytes → Eight
from_bytes (a ∷ b ∷ c ∷ e ∷ f ∷ g ∷ h ∷ i ∷ _) = record {
  b0 = a;
  b1 = b;
  b2 = c;
  b3 = e;
  b4 = f;
  b5 = g;
  b6 = h;
  b7 = i;
}
from_bytes _ = eight 0

abbrev pub thousandths : Doubles
thousandths = record {
  Real = Eight;
  of_int = λ n. eight (pos_part n * 1000);
  le = λ a b. leb (number a) (number b);
  lt = λ a b. ltb (number a) (number b);
  add = λ a b. eight (number a + number b);
  sub = λ a b. eight (number a - number b);
  mul = λ a b. eight (number a * number b / 1000);
  div = λ a b. eight (number a * 1000 / number b);
  ceil_int = λ a. (number a + 999) / 1000;
  trunc = λ a. pos (number a / 1000);
  to_bytes = λ x. x.b0 ∷ x.b1 ∷ x.b2 ∷ x.b3 ∷ x.b4 ∷ x.b5 ∷ x.b6 ∷ x.b7 ∷ [];
  of_bytes = from_bytes;
}

abbrev pub one_per_second : Eight
one_per_second = eight 1000

abbrev first : Bytes
first = codes "10.0.0.1"

check_shard-Checked_example :
    (r : Decision × Shard thousandths) × (check_shard thousandths 1 first one_per_second
        one_per_second 5000
        (empty_shard thousandths)
      ≡ some r)
    × Checked thousandths 1 first
        (allow thousandths
          (bucket_of thousandths first (empty_shard thousandths))
          one_per_second
          one_per_second
          5000)
        (empty_shard thousandths)
        r
check_shard-Checked_example =
    check_shard-Checked thousandths 1 first one_per_second one_per_second 5000
      (empty_shard thousandths) (omega arith) (empty_shard-IsShard thousandths)

abbrev call : Bytes → ℕ → Call thousandths
call key now = record { key = key; rate = one_per_second; burst = one_per_second; now = now }

-- The first key is pushed out, and comes back with a new bucket.
abbrev calls : List (Call thousandths)
calls =
    call (codes "a") 5000
    ∷ call (codes "a") 5001
    ∷ call (codes "b") 5002
    ∷ call (codes "a") 5003
    ∷ []

abbrev is_allowed : Option (List Decision × Shard thousandths) → List Bool
is_allowed none = []
is_allowed (some (ds, s)) = map (λ (x : Decision). x.allowed) ds

calls_answers :
    is_allowed (run thousandths 1 calls (empty_shard thousandths)) ≡ true ∷ false ∷ true ∷ true ∷ []
unfolding run bytes_eq
calls_answers = refl
