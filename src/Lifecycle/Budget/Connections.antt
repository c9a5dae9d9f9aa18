-- ===== src/Lifecycle/Budget/Connections.antt =====
-- The shared counter of connections is right, and within the limits that are set.
use asio_owen.Prelude.{
  ℕ, ◌+◌, ◌≤◌, leb, Bool, false, if◌then◌else◌, ◌==◌, ◌≡◌, ◌≢◌, ◌⊎◌, List, [], ◌∷◌, All, Option,
  none, some, refl, arith,
}
use asio_owen.Lifecycle.Threads.{World, total, Counts, Step-Counts, Reach, Reach_keeps}
use asio_owen.Lifecycle.Budget.{
  Budget, Place, idle, trying, releasing_from, control, Move, load, full, unlimited, room, acquired,
  missed, begin_release, load_release, nothing_left, released, missed_release, set_limit,
  connections,
}

-- The limits that may be set: any, or those above 0 and up to a top one.
abbrev pub IsLimit : Option ℕ → ℕ → Type 0
IsLimit none n = Unit
IsLimit (some top) n = (n ≢ 0) × (n ≤ top)

abbrev pub Within : Option ℕ → ℕ → Type 0
Within none n = Unit
Within (some top) n = n ≤ top

module _ (top : Option ℕ) where
  abbrev over : Option ℕ → ℕ → Bool
  over none n = false
  over (some top) n = leb top n

  -- A thread about to add one has seen room, and one about to subtract has not seen zero.
  abbrev bad : Place → ℕ
  bad (trying n) = if over top n then 1 else 0
  bad (releasing_from n) = if n == 0 then 1 else 0
  bad _ = 0

  abbrev IsFine : Budget → Type 0
  IsFine s = IsLimit top s.limit × Within top s.current

Move-keeps :
    (top : Option ℕ) (others : ℕ) (s : Budget) (p : Place) (t : Budget) (q : Place)
    → Move (IsLimit top) s p t q
    → s.current ≡ others + connections p
    → bad top p ≡ 0
    → IsFine top s
    → (t.current ≡ others + connections q) × (bad top q ≡ 0) × IsFine top t
Move-keeps top others s p t q load a b c = (a, refl, c)
Move-keeps top others s p t q (full h k) a b c = (a, refl, c)
Move-keeps none others s p t q (unlimited e) a b c = (a, refl, c)
Move-keeps (some top) others s p t q (unlimited e) a b c = absurd (c.0.0 e)
Move-keeps none others s p t q (room h) a b c = (a, refl, c)
Move-keeps (some top) others s p t q (room h) a b c = ground arith
Move-keeps none others s p t q (acquired e) a b c = ground arith
Move-keeps (some top) others s p t q (acquired e) a b c = ground arith
Move-keeps top others s p t q missed a b c = (a, refl, c)
Move-keeps top others s p t q begin_release a b c = (a, refl, c)
Move-keeps top others s p t q load_release a b c = ground arith
Move-keeps top others s p t q (nothing_left e) a b c = ground arith
Move-keeps none others s p t q (released h e) a b c = ground arith
Move-keeps (some top) others s p t q (released h e) a b c = ground arith
Move-keeps top others s p t q (missed_release h) a b c = ground arith
Move-keeps none others s p t q (set_limit k) a b c = (a, refl, c)
Move-keeps (some top) others s p t q (set_limit k) a b c = (a, refl, (k, c.1))

-- Every thread is idle, or is the one that sets the limit.
abbrev pub AllIdle : List Place → Type 0
AllIdle = All (λ p. (p ≡ idle) ⊎ (p ≡ control))

AllIdle-total :
    (top : Option ℕ) (ps : List Place)
    → AllIdle ps
    → (total connections ps ≡ 0) × (total (bad top) ps ≡ 0)
AllIdle-total top [] h = (refl, refl)
AllIdle-total top (p ∷ ps) h = ground (arith, AllIdle-total top ps h.1)

abbrev pub new_budget : ℕ → List Place → World Budget Place
new_budget limit ps = record { shared = record { current = 0; limit = limit }; threads = ps }

Within-zero : (top : Option ℕ) → Within top 0
Within-zero none = tt
Within-zero (some top) = omega arith

-- However threads acquire, release and change the limit, the count is the number of connections
-- that are out; if the limits are all above 0 and at most a top one, there are no more than that.
pub current_exact :
    (top : Option ℕ) (limit : ℕ) (ps : List Place) {w : World Budget Place}
    → IsLimit top limit
    → AllIdle ps
    → Reach (Move (IsLimit top)) (new_budget limit ps) w
    → (w.shared.current ≡ total connections w.threads) × Within top w.shared.current
current_exact top limit ps {w} l h path =
    let (a, b) = AllIdle-total top ps h in
    let good =
      Reach_keeps (Move (IsLimit top))
        (Counts (Move (IsLimit top)) connections (bad top) (λ s. s.current) (IsFine top))
        (Step-Counts (Move (IsLimit top)) connections (bad top) (λ s. s.current) (IsFine top)
          (Move-keeps top))
        path (record { exact = omega (arith, a); places = b; fine = (l, Within-zero top) }) in
    (good.exact, good.fine.1)
