-- ===== src/Lifecycle/Pool/PerShard.antt =====
-- How an operation changes one shard of a pool.
use asio_owen.Prelude.{
  ℕ, ◌+◌, ◌-◌, ◌≤◌, ◌==◌, Bool, true, false, List, [], ◌∷◌, if◌then◌else◌, some, get_elem?, length,
  length-append, All, All-append, ◌≡◌, inl, inr, refl, ap, sym, subst, ◌∙◌, arith, ==_iff,
  Bool-cases,
}
use asio_owen.Lifecycle.Handlers.{fetch_sub_one}
use asio_owen.Lifecycle.Pool.{
  HttpConn, Shard, Config, State, set_shard, Op, Effect, stop, pop_closed, pop_used, track, untrack,
  made, lost, pooled,
}
use asio_owen.Lifecycle.Pool.Weights.{hold_gain, hold_loss}
use asio_owen.Lifecycle.Pool.Shards.{
  shard_at, shard_at-set_shard, shard_at-get, AtHome, AtHome-set_shard,
}

-- The connections of a shard that are not idle.
abbrev pub out_of : Shard → ℕ
out_of sh = sh.total - length sh.idle

abbrev pub IsCounted : Shard → Type 0
IsCounted sh = (length sh.idle ≤ sh.total) × (sh.in_flight ≡ out_of sh)

-- A change of the shard itself.
abbrev Changes : Shard → Shard → ℕ → ℕ → Type 0
Changes sh x gain loss =
    loss ≤ out_of sh → IsCounted sh → (out_of x + loss ≡ out_of sh + gain) × IsCounted x

shard_change :
    (i j : ℕ) (x sh : Shard) (shards : List Shard) (gain loss : ℕ)
    → get_elem? shards i ≡ some sh
    → Changes sh x gain loss
    → (if i == j then loss else 0) ≤ out_of (shard_at j shards)
    → IsCounted (shard_at j shards)
    → (out_of (shard_at j (set_shard i x shards)) + (if i == j then loss else 0)
        ≡ out_of (shard_at j shards) + (if i == j then gain else 0))
      × IsCounted (shard_at j (set_shard i x shards))
shard_change i j x sh shards gain loss g change l ok = elim (Bool-cases (i == j)) [
  | inl e ↦
      let same : shard_at j shards ≡ sh =
        ap (λ k. shard_at k shards) (sym ((==_iff i j).0 e)) ∙ shard_at-get i sh shards g in
      rw (shard_at-set_shard i j x sh shards g)
        (rw e (rw same (change (ground (arith, ap out_of same)) (subst IsCounted same ok))))
  | inr e ↦ rw (shard_at-set_shard i j x sh shards g) (rw e (refl, ok))
]

if_zero : (b : Bool) → ◌≡◌ {A = ℕ} (if b then 0 else 0) 0
if_zero true = refl
if_zero false = refl

shard_keep :
    (i j : ℕ) (x sh : Shard) (shards : List Shard)
    → get_elem? shards i ≡ some sh
    → Changes sh x 0 0
    → IsCounted (shard_at j shards)
    → (out_of (shard_at j (set_shard i x shards)) + 0 ≡ out_of (shard_at j shards) + 0)
      × IsCounted (shard_at j (set_shard i x shards))
shard_keep i j x sh shards g change ok =
    let (a, b) = shard_change i j x sh shards 0 0 g change (omega (arith, if_zero (i == j))) ok in
    (omega (arith, a, if_zero (i == j)), b)

shard_gain :
    (i j : ℕ) (x sh : Shard) (shards : List Shard)
    → get_elem? shards i ≡ some sh
    → Changes sh x 1 0
    → IsCounted (shard_at j shards)
    → (out_of (shard_at j (set_shard i x shards)) + 0
        ≡ out_of (shard_at j shards) + (if i == j then 1 else 0))
      × IsCounted (shard_at j (set_shard i x shards))
shard_gain i j x sh shards g change ok =
    let (a, b) = shard_change i j x sh shards 1 0 g change (omega (arith, if_zero (i == j))) ok in
    (omega (arith, a, if_zero (i == j)), b)

shard_lose :
    (i j : ℕ) (x sh : Shard) (shards : List Shard)
    → get_elem? shards i ≡ some sh
    → Changes sh x 0 1
    → (if i == j then 1 else 0) ≤ out_of (shard_at j shards)
    → IsCounted (shard_at j shards)
    → (out_of (shard_at j (set_shard i x shards)) + (if i == j then 1 else 0)
        ≡ out_of (shard_at j shards) + 0)
      × IsCounted (shard_at j (set_shard i x shards))
shard_lose i j x sh shards g change l ok =
    let (a, b) = shard_change i j x sh shards 0 1 g change l ok in
    (omega (arith, a, if_zero (i == j)), b)

first_home :
    (i : ℕ) (c : HttpConn) (rest : List HttpConn) (sh : Shard) (shards : List Shard)
    → AtHome shards
    → get_elem? shards i ≡ some sh
    → sh.idle ≡ c ∷ rest
    → (c.shard_idx ≡ i) × All (λ d. d.shard_idx ≡ i) rest
first_home i c rest sh shards h g e =
    subst (λ l. All (λ d. d.shard_idx ≡ i) l) (ap (λ x. x.idle) (shard_at-get i sh shards g) ∙ e)
      (h i)

sh_home :
    (i : ℕ) (sh : Shard) (shards : List Shard)
    → AtHome shards
    → get_elem? shards i ≡ some sh
    → All (λ d. d.shard_idx ≡ i) sh.idle
sh_home i sh shards h g =
    subst (λ x. All (λ d. d.shard_idx ≡ i) x.idle) (shard_at-get i sh shards g) (h i)

pub Effect-AtHome :
    {cfg : Config} {s : State} {op : Op} {t : State}
    → Effect cfg s op t
    → AtHome s.shards
    → AtHome t.shards
Effect-AtHome {s = s} (pop_closed {i} {c} {sh} {rest} g e) h =
    AtHome-set_shard i _ sh s.shards g h (first_home i c rest sh s.shards h g e).1
Effect-AtHome {s = s} (pop_used {i} {c} {sh} {rest} g e) h =
    AtHome-set_shard i _ sh s.shards g h (first_home i c rest sh s.shards h g e).1
Effect-AtHome {s = s} (track {c} {sh} g) h =
    AtHome-set_shard c.shard_idx _ sh s.shards g h (sh_home c.shard_idx sh s.shards h g)
Effect-AtHome {s = s} (untrack {c} {sh} g) h =
    AtHome-set_shard c.shard_idx _ sh s.shards g h (sh_home c.shard_idx sh s.shards h g)
Effect-AtHome {s = s} (made {c} {sh} g) h =
    AtHome-set_shard c.shard_idx _ sh s.shards g h (sh_home c.shard_idx sh s.shards h g)
Effect-AtHome {s = s} (lost {c} {sh} g) h =
    AtHome-set_shard c.shard_idx _ sh s.shards g h (sh_home c.shard_idx sh s.shards h g)
Effect-AtHome {s = s} (pooled {c} {sh} g) h = AtHome-set_shard c.shard_idx _ sh s.shards g h (
    All-append (λ d. d.shard_idx ≡ c.shard_idx) sh.idle (c ∷ [])
      (sh_home c.shard_idx sh s.shards h g) (refl, tt))
Effect-AtHome stop h = h
Effect-AtHome e h = h

-- No counter of a shard is taken below zero.
fetch_sub_one_some : (n : ℕ) → 1 ≤ n → fetch_sub_one n + 1 ≡ n
unfolding fetch_sub_one
fetch_sub_one_some n h = ground arith

pub Effect-holds :
    (j : ℕ) {cfg : Config} {s : State} {op : Op} {t : State}
    → Effect cfg s op t
    → hold_loss j op ≤ out_of (shard_at j s.shards)
    → AtHome s.shards
    → IsCounted (shard_at j s.shards)
    → (out_of (shard_at j t.shards) + hold_loss j op
        ≡ out_of (shard_at j s.shards) + hold_gain j op)
      × IsCounted (shard_at j t.shards)
Effect-holds j {s = s} (pop_closed {i} {c} {sh} {rest} g e) l h ok =
    shard_keep i j _ sh s.shards g
      (λ l ok.
        omega (arith, ap length e, fetch_sub_one_some sh.total (omega (arith, ap length e, ok))))
      ok
Effect-holds j {s = s} (pop_used {i} {c} {sh} {rest} g e) l h ok =
    subst
      (λ k.
        (out_of (
              shard_at j
                (set_shard i (record sh { idle = rest; in_flight = sh.in_flight + 1 }) s.shards))
            + 0
          ≡ out_of (shard_at j s.shards) + (if k == j then 1 else 0))
        × IsCounted (
            shard_at j
              (set_shard i (record sh { idle = rest; in_flight = sh.in_flight + 1 }) s.shards)))
      (sym (first_home i c rest sh s.shards h g e).0)
      (shard_gain i j _ sh s.shards g (λ l ok. omega (arith, ap length e)) ok)
Effect-holds j {s = s} (track {c} {sh} g) l h ok =
    shard_keep c.shard_idx j _ sh s.shards g (λ l ok. omega arith) ok
Effect-holds j {s = s} (untrack {c} {sh} g) l h ok =
    shard_keep c.shard_idx j _ sh s.shards g (λ l ok. omega arith) ok
Effect-holds j {s = s} (made {c} {sh} g) l h ok =
    shard_gain c.shard_idx j _ sh s.shards g (λ l ok. omega arith) ok
Effect-holds j {s = s} (lost {c} {sh} g) l h ok =
    shard_lose c.shard_idx j _ sh s.shards g
      (λ l ok. omega (
        arith,
        fetch_sub_one_some sh.total (omega (arith, l)),
        fetch_sub_one_some sh.in_flight (omega (arith, l, ok)),
      ))
      l ok
Effect-holds j {s = s} (pooled {c} {sh} g) l h ok =
    shard_lose c.shard_idx j _ sh s.shards g
      (λ l ok. omega (
        arith,
        length-append sh.idle (c ∷ []),
        fetch_sub_one_some sh.in_flight (omega (arith, l, ok)),
      ))
      l ok
Effect-holds j stop l h ok = (refl, ok)
Effect-holds j e l h ok = (refl, ok)
