-- ===== src/Lifecycle/Pool/Shards.antt =====
-- The shards of a pool: sums over them, and one of them changed.
use asio_owen.Prelude.{
  ℕ, suc, zero, ◌+◌, ◌==◌, List, [], ◌∷◌, if◌then◌else◌, some, some-injective, get_elem?, length,
  All, ◌≡◌, refl, subst, arith, Bool-cases, inl, inr, ==_iff,
}
use asio_owen.Lifecycle.Pool.{Shard, set_shard}

abbrev pub idle_sum : List Shard → ℕ
idle_sum [] = 0
idle_sum (sh ∷ shards) = length sh.idle + idle_sum shards

abbrev pub no_shard : Shard
no_shard = record { idle = []; active = []; total = 0; in_flight = 0 }

abbrev pub shard_at : ℕ → List Shard → Shard
shard_at j [] = no_shard
shard_at zero (sh ∷ shards) = sh
shard_at (suc j) (sh ∷ shards) = shard_at j shards

pub idle_sum-set_shard :
    (i : ℕ) (x sh : Shard) (shards : List Shard)
    → get_elem? shards i ≡ some sh
    → idle_sum (set_shard i x shards) + length sh.idle ≡ idle_sum shards + length x.idle
idle_sum-set_shard i x sh [] h = cc
idle_sum-set_shard zero x sh (y ∷ ys) h = ground arith
idle_sum-set_shard (suc i) x sh (y ∷ ys) h = omega (arith, idle_sum-set_shard i x sh ys h)

pub shard_at-set_shard :
    (i j : ℕ) (x sh : Shard) (shards : List Shard)
    → get_elem? shards i ≡ some sh
    → shard_at j (set_shard i x shards) ≡ (if i == j then x else shard_at j shards)
shard_at-set_shard i j x sh [] h = cc
shard_at-set_shard zero zero x sh (y ∷ ys) h = refl
shard_at-set_shard zero (suc j) x sh (y ∷ ys) h = ground arith
shard_at-set_shard (suc i) zero x sh (y ∷ ys) h = ground arith
shard_at-set_shard (suc i) (suc j) x sh (y ∷ ys) h = ground (arith, shard_at-set_shard i j x sh ys)

pub shard_at-get :
    (i : ℕ) (sh : Shard) (shards : List Shard)
    → get_elem? shards i ≡ some sh
    → shard_at i shards ≡ sh
shard_at-get i sh [] h = cc
shard_at-get zero sh (y ∷ ys) h = some-injective y sh h
shard_at-get (suc i) sh (y ∷ ys) h = shard_at-get i sh ys h

-- Every idle connection stands in the shard that it belongs to.
abbrev pub AtHome : List Shard → Type 0
AtHome shards = (j : ℕ) → All (λ c. c.shard_idx ≡ j) (shard_at j shards).idle

pub AtHome-set_shard :
    (i : ℕ) (x sh : Shard) (shards : List Shard)
    → get_elem? shards i ≡ some sh
    → AtHome shards
    → All (λ c. c.shard_idx ≡ i) x.idle
    → AtHome (set_shard i x shards)
AtHome-set_shard i x sh shards g h new j = elim (Bool-cases (i == j)) [
  | inl e ↦
      rw (shard_at-set_shard i j x sh shards g)
        (rw e (subst (λ k. All (λ c. c.shard_idx ≡ k) x.idle) ((==_iff i j).0 e) new))
  | inr e ↦ rw (shard_at-set_shard i j x sh shards g) (rw e (h j))
]
