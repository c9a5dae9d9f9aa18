-- ===== src/Lifecycle/Threads.antt =====
-- Threads that interleave on shared atomics. A move is one atomic operation of one thread; a step
-- of the world is a move of any of its threads.
use asio_owen.Prelude.{ℕ, ◌+◌, ◌≤◌, List, [], ◌∷◌, ◌++◌, ◌≡◌, ap, arith}

pub record World (S P : Type 0) : Type 0 where
  pub shared : S
  pub threads : List P

module _ {P : Type 0} where
  -- The sum of a weight over the threads.
  abbrev pub total : (P → ℕ) → List P → ℕ
  total weight [] = 0
  total weight (p ∷ ps) = weight p + total weight ps

  pub total_split :
      (weight : P → ℕ) (l : List P) (p : P) (r : List P)
      → total weight (l ++ p ∷ r) ≡ total weight l + weight p + total weight r
  total_split weight [] p r = omega arith
  total_split weight (q ∷ l) p r = omega (arith, total_split weight l p r)

  pub total_mono : (a b : P → ℕ) → ((p : P) → a p ≤ b p) → (ps : List P) → total a ps ≤ total b ps
  total_mono a b h [] = omega arith
  total_mono a b h (p ∷ ps) = omega (arith, h p, total_mono a b h ps)

module _ {S P : Type 0} (Move : S → P → S → P → Type 0) where
  pub data Step (w v : World S P) : Type 0 where
    turn :
        (l r : List P) (p q : P)
        → w.threads ≡ l ++ p ∷ r
        → v.threads ≡ l ++ q ∷ r
        → Move w.shared p v.shared q
        → Step w v

  pub data Reach (w : World S P) : World S P → Type 0 where
    start : Reach w w
    next : {v u : World S P} → Reach w v → Step v u → Reach w u

  -- A count that is the sum of the threads' weights, threads that are all at good places, and a
  -- fact about the shared state.
  pub record Counts {κ} (weight bad : P → ℕ) (count : S → ℕ) (Fine : S → Type κ) (w : World S P)
      : Type κ where
    pub exact : count w.shared ≡ total weight w.threads
    pub places : total bad w.threads ≡ 0
    pub fine : Fine w.shared

  -- Such an invariant is kept by every step if each move keeps it for its own thread, whatever the
  -- other threads add to the count.
  pub Step-Counts {κ} :
      (weight bad : P → ℕ) (count : S → ℕ) (Fine : S → Type κ)
      → ((others : ℕ) (s : S) (p : P) (t : S) (q : P)
          → Move s p t q
          → count s ≡ others + weight p
          → bad p ≡ 0
          → Fine s
          → (count t ≡ others + weight q) × (bad q ≡ 0) × Fine t)
      → (w v : World S P) → Step w v
      → Counts weight bad count Fine w
      → Counts weight bad count Fine v
  Step-Counts weight bad count Fine keep w v (turn l r p q e f m) h =
      let (a, b, c) =
        keep (total weight l + total weight r) w.shared p v.shared q m
          (omega (arith, h.exact, total_split weight l p r, ap (total weight) e))
          (omega (arith, h.places, total_split bad l p r, ap (total bad) e)) h.fine in
      record {
        exact = omega (arith, a, total_split weight l q r, ap (total weight) f);
        places = omega (
          arith,
          b,
          h.places,
          total_split bad l p r,
          ap (total bad) e,
          total_split bad l q r,
          ap (total bad) f,
        );
        fine = c;
      }

  -- A weight that no move raises falls or stays in sum.
  pub Step-falls :
      (weight : P → ℕ) (w v : World S P)
      → ((p q : P) → Move w.shared p v.shared q → weight q ≤ weight p)
      → Step w v
      → total weight v.threads ≤ total weight w.threads
  Step-falls weight w v falls (turn l r p q e f m) = omega (
    arith,
    falls p q m,
    total_split weight l p r,
    total_split weight l q r,
    ap (total weight) e,
    ap (total weight) f,
  )

  -- What every step keeps holds wherever the threads get.
  pub Reach_keeps {κ} :
      (I : World S P → Type κ)
      → ((w v : World S P) → Step w v → I w → I v)
      → {w v : World S P} → Reach w v
      → I w
      → I v
  Reach_keeps I keep start h = h
  Reach_keeps I keep (next {v} {u} path st) h = keep v u st (Reach_keeps I keep path h)
