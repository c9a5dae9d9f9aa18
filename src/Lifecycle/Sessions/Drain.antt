-- ===== src/Lifecycle/Sessions/Drain.antt =====
-- The counter is right, within the capacity, and once the phase has moved on nobody gets in.
use asio_owen.Prelude.{
  ℕ, ◌+◌, ◌≤◌, leb, not, ◌&&◌, ◌==◌, if◌then◌else◌, ◌≡◌, ◌≢◌, ◌⊎◌, List, [], ◌∷◌, All, refl, arith,
}
use asio_owen.Lifecycle.Threads.{
  World, total, total_mono, Counts, Step, Step-Counts, Step-falls, Reach, Reach_keeps,
}
use asio_owen.Lifecycle.Sessions.{
  running, Coordinator, Place, outside, trying, counted, holding, leaving_from, control, Move, pass,
  refused, load, full, room, entered, missed, granted, too_late, release, load_leaving,
  nothing_left, left, missed_leaving, begin_draining, begin_draining_fails, mark_stopped, in_count,
  holds, fresh, IsDrained,
}

module _ (max_sessions : ℕ) where
  -- A thread about to add one has seen room, and one about to subtract has not seen zero.
  abbrev bad : Place → ℕ
  bad (trying n) = if not (max_sessions == 0) && leb max_sessions n then 1 else 0
  bad (leaving_from n) = if n == 0 then 1 else 0
  bad _ = 0

  abbrev WithinCapacity : Coordinator → Type 0
  WithinCapacity s = max_sessions ≢ 0 → s.active_sessions ≤ max_sessions

  Move-keeps :
      (others : ℕ) (s : Coordinator) (p : Place) (t : Coordinator) (q : Place)
      → Move max_sessions s p t q
      → s.active_sessions ≡ others + in_count p
      → bad p ≡ 0
      → WithinCapacity s
      → (t.active_sessions ≡ others + in_count q) × (bad q ≡ 0) × WithinCapacity t
  Move-keeps others s p t q (pass h) a b c = (a, refl, c)
  Move-keeps others s p t q (refused h) a b c = (a, refl, c)
  Move-keeps others s p t q load a b c = (a, refl, c)
  Move-keeps others s p t q (full h k) a b c = (a, refl, c)
  Move-keeps others s p t q (room h) a b c = ground arith
  Move-keeps others s p t q (entered e) a b c = ground arith
  Move-keeps others s p t q missed a b c = (a, refl, c)
  Move-keeps others s p t q (granted h) a b c = (a, refl, c)
  Move-keeps others s p t q (too_late h) a b c = (a, refl, c)
  Move-keeps others s p t q release a b c = (a, refl, c)
  Move-keeps others s p t q load_leaving a b c = ground arith
  Move-keeps others s p t q (nothing_left e) a b c = ground arith
  Move-keeps others s p t q (left h e) a b c = ground arith
  Move-keeps others s p t q (missed_leaving h) a b c = ground arith
  Move-keeps others s p t q (begin_draining h) a b c = (a, refl, c)
  Move-keeps others s p t q (begin_draining_fails h) a b c = (a, refl, c)
  Move-keeps others s p t q mark_stopped a b c = (a, refl, c)

  abbrev IsCounted : World Coordinator Place → Type 0
  IsCounted = Counts (Move max_sessions) in_count bad (λ s. s.active_sessions) WithinCapacity

  -- Every thread is outside, or is the one that shuts down.
  abbrev pub AllOutside : List Place → Type 0
  AllOutside = All (λ p. (p ≡ outside) ⊎ (p ≡ control))

  AllOutside-total :
      (ps : List Place) → AllOutside ps → (total in_count ps ≡ 0) × (total bad ps ≡ 0)
  AllOutside-total [] h = (refl, refl)
  AllOutside-total (p ∷ ps) h = ground (arith, AllOutside-total ps h.1)

  abbrev pub fresh_world : List Place → World Coordinator Place
  fresh_world ps = record { shared = fresh; threads = ps }

  fresh-IsCounted : (ps : List Place) → AllOutside ps → IsCounted (fresh_world ps)
  fresh-IsCounted ps h =
      let (a, b) = AllOutside-total ps h in
      record { exact = omega (arith, a); places = b; fine = λ _. omega arith }

  Reach-IsCounted :
      (ps : List Place) {w : World Coordinator Place}
      → AllOutside ps
      → Reach (Move max_sessions) (fresh_world ps) w
      → IsCounted w
  Reach-IsCounted ps h path =
      Reach_keeps (Move max_sessions) IsCounted
        (Step-Counts (Move max_sessions) in_count bad (λ s. s.active_sessions) WithinCapacity
          Move-keeps)
        path (fresh-IsCounted ps h)

  holds-le-in_count : (p : Place) → holds p ≤ in_count p
  holds-le-in_count holding = omega arith
  holds-le-in_count counted = omega arith
  holds-le-in_count _ = omega arith

  capacity_or_none :
      (s : Coordinator) → WithinCapacity s → (max_sessions ≡ 0) ⊎ (s.active_sessions ≤ max_sessions)
  capacity_or_none s h = ground (arith, h)

  -- However the threads interleave, the counter is the number of threads that are counted in, which
  -- is at least the number of leases, and it stays within the capacity, if there is one.
  pub active_sessions_exact :
      (ps : List Place) {w : World Coordinator Place}
      → AllOutside ps
      → Reach (Move max_sessions) (fresh_world ps) w
      → (w.shared.active_sessions ≡ total in_count w.threads)
        × (total holds w.threads ≤ w.shared.active_sessions)
        × ((max_sessions ≡ 0) ⊎ (w.shared.active_sessions ≤ max_sessions))
  active_sessions_exact ps {w} h path =
      let good = Reach-IsCounted ps h path in
      (
        good.exact,
        omega (arith, good.exact, total_mono holds in_count holds-le-in_count w.threads),
        capacity_or_none w.shared good.fine,
      )

  Move_past_running :
      (s : Coordinator) (p : Place) (t : Coordinator) (q : Place)
      → Move max_sessions s p t q
      → s.phase ≢ running
      → (t.phase ≢ running) × (holds q ≤ holds p)
  Move_past_running s p t q (granted h) n = absurd (n h)
  Move_past_running s p t q (pass h) n = absurd (n h)
  Move_past_running s p t q (begin_draining h) n = absurd (n h)
  Move_past_running s p t q mark_stopped n = ((λ e. cc), omega arith)
  Move_past_running s p t q (refused h) n = (n, omega arith)
  Move_past_running s p t q load n = (n, omega arith)
  Move_past_running s p t q (full h k) n = (n, omega arith)
  Move_past_running s p t q (room h) n = (n, omega arith)
  Move_past_running s p t q (entered e) n = (n, omega arith)
  Move_past_running s p t q missed n = (n, omega arith)
  Move_past_running s p t q (too_late h) n = (n, omega arith)
  Move_past_running s p t q release n = (n, omega arith)
  Move_past_running s p t q load_leaving n = (n, omega arith)
  Move_past_running s p t q (nothing_left e) n = (n, omega arith)
  Move_past_running s p t q (left h e) n = (n, omega arith)
  Move_past_running s p t q (missed_leaving h) n = (n, omega arith)
  Move_past_running s p t q (begin_draining_fails h) n = (n, omega arith)

  record Fewer (limit : ℕ) (w : World Coordinator Place) : Type 0 where
    past : w.shared.phase ≢ running
    fewer : total holds w.threads ≤ limit

  Step-Fewer :
      (limit : ℕ) (w v : World Coordinator Place)
      → Step (Move max_sessions) w v
      → Fewer limit w
      → Fewer limit v
  Step-Fewer limit w v st h = record {
    past = past_of st;
    fewer = omega (
      arith,
      h.fewer,
      Step-falls (Move max_sessions) holds w v
          (λ p q m. (Move_past_running w.shared p v.shared q m h.past).1) st,
    );
  }
    where
      past_of : Step (Move max_sessions) w v → v.shared.phase ≢ running
      past_of (Step.turn l r p q e f m) = (Move_past_running w.shared p v.shared q m h.past).0

  -- A zero that is read after the phase has moved on is final: no thread holds a lease then, and
  -- none will.
  pub drained_for_good :
      (ps : List Place) {w v : World Coordinator Place}
      → AllOutside ps
      → Reach (Move max_sessions) (fresh_world ps) w
      → w.shared.phase ≢ running
      → IsDrained w.shared
      → Reach (Move max_sessions) w v
      → total holds v.threads ≡ 0
  drained_for_good ps {w} {v} h path past zero_read later =
      let (_, some_held, _) = active_sessions_exact ps h path in
      let kept =
        Reach_keeps (Move max_sessions) (Fewer 0) (Step-Fewer 0) later
          (record { past = past; fewer = omega (arith, some_held, zero_read) }) in
      omega (arith, kept.fewer)
