-- ===== src/Lifecycle/Handlers/Drain.antt =====
-- The counter is right, and once it reads zero after the phase has moved on no handler runs again.
use asio_owen.Prelude.{ℕ, ◌+◌, ◌≤◌, ◌≡◌, ◌≢◌, ◌⊎◌, List, [], ◌∷◌, All, refl, arith}
use asio_owen.Lifecycle.Threads.{
  World, total, total_mono, Counts, Step, Step-Counts, Step-falls, Reach, Reach_keeps,
}
use asio_owen.Lifecycle.Sessions.{running}
use asio_owen.Lifecycle.Handlers.{
  RouteLifecycle, fetch_sub_one, Place, outside, added, handling, control, Move, pass, refused, add,
  granted, too_late, undo, release, begin_draining, begin_draining_fails, mark_stopped, in_count,
  handles, fresh,
}

abbrev nowhere : Place → ℕ
nowhere p = 0

abbrev Anything : RouteLifecycle → Type 0
Anything s = Unit {0}

Move-keeps :
    (others : ℕ) (s : RouteLifecycle) (p : Place) (t : RouteLifecycle) (q : Place)
    → Move s p t q
    → s.active_handlers ≡ others + in_count p
    → nowhere p ≡ 0
    → Anything s
    → (t.active_handlers ≡ others + in_count q) × (nowhere q ≡ 0) × Anything t
unfolding fetch_sub_one
Move-keeps others s p t q (pass h) a b c = (a, refl, tt)
Move-keeps others s p t q (refused h) a b c = (a, refl, tt)
Move-keeps others s p t q add a b c = (omega arith, refl, tt)
Move-keeps others s p t q (granted h) a b c = (a, refl, tt)
Move-keeps others s p t q (too_late h) a b c = (a, refl, tt)
Move-keeps others s p t q undo a b c = (ground arith, refl, tt)
Move-keeps others s p t q release a b c = (ground arith, refl, tt)
Move-keeps others s p t q (begin_draining h) a b c = (a, refl, tt)
Move-keeps others s p t q (begin_draining_fails h) a b c = (a, refl, tt)
Move-keeps others s p t q mark_stopped a b c = (a, refl, tt)

abbrev pub AllOutside : List Place → Type 0
AllOutside = All (λ p. (p ≡ outside) ⊎ (p ≡ control))

AllOutside-total :
    (ps : List Place) → AllOutside ps → (total in_count ps ≡ 0) × (total nowhere ps ≡ 0)
AllOutside-total [] h = (refl, refl)
AllOutside-total (p ∷ ps) h = ground (arith, AllOutside-total ps h.1)

abbrev pub fresh_world : List Place → World RouteLifecycle Place
fresh_world ps = record { shared = fresh; threads = ps }

handles-le-in_count : (p : Place) → handles p ≤ in_count p
handles-le-in_count handling = omega arith
handles-le-in_count added = omega arith
handles-le-in_count _ = omega arith

-- However the threads interleave, the counter is the number of threads that have added themselves
-- and not yet subtracted, so it never wraps, and it is at least the number of running handlers.
active_handlers_exact :
    (ps : List Place) {w : World RouteLifecycle Place}
    → AllOutside ps
    → Reach Move (fresh_world ps) w
    → (w.shared.active_handlers ≡ total in_count w.threads)
      × (total handles w.threads ≤ w.shared.active_handlers)
active_handlers_exact ps {w} h path =
    let (a, b) = AllOutside-total ps h in
    let good =
      Reach_keeps Move (Counts Move in_count nowhere (λ s. s.active_handlers) Anything)
        (Step-Counts Move in_count nowhere (λ s. s.active_handlers) Anything Move-keeps) path
        (record { exact = omega (arith, a); places = b; fine = tt }) in
    (
      good.exact,
      omega (arith, good.exact, total_mono handles in_count handles-le-in_count w.threads),
    )

Move_past_running :
    (s : RouteLifecycle) (p : Place) (t : RouteLifecycle) (q : Place)
    → Move s p t q
    → s.phase ≢ running
    → (t.phase ≢ running) × (handles q ≤ handles p)
Move_past_running s p t q (pass h) n = absurd (n h)
Move_past_running s p t q (granted h) n = absurd (n h)
Move_past_running s p t q (begin_draining h) n = absurd (n h)
Move_past_running s p t q (refused h) n = (n, omega arith)
Move_past_running s p t q add n = (n, omega arith)
Move_past_running s p t q (too_late h) n = (n, omega arith)
Move_past_running s p t q undo n = (n, omega arith)
Move_past_running s p t q release n = (n, omega arith)
Move_past_running s p t q (begin_draining_fails h) n = (n, omega arith)
Move_past_running s p t q mark_stopped n = ((λ e. cc), omega arith)

record Fewer (limit : ℕ) (w : World RouteLifecycle Place) : Type 0 where
  past : w.shared.phase ≢ running
  fewer : total handles w.threads ≤ limit

past_of :
    (w v : World RouteLifecycle Place)
    → Step Move w v
    → w.shared.phase ≢ running
    → v.shared.phase ≢ running
past_of w v (Step.turn l r p q e f m) h = (Move_past_running w.shared p v.shared q m h).0

Step-Fewer :
    (limit : ℕ) (w v : World RouteLifecycle Place) → Step Move w v → Fewer limit w → Fewer limit v
Step-Fewer limit w v st h = record {
  past = past_of w v st h.past;
  fewer = omega (
    arith,
    h.fewer,
    Step-falls Move handles w v (λ p q m. (Move_past_running w.shared p v.shared q m h.past).1) st,
  );
}

-- Once the phase has moved on, no handler starts: the number of those that run never rises, and
-- stays within the counter as it was read at any time after, so that a zero means none, for good.
pub no_new_handlers :
    (ps : List Place) {w v : World RouteLifecycle Place}
    → AllOutside ps
    → Reach Move (fresh_world ps) w
    → w.shared.phase ≢ running
    → Reach Move w v
    → (total handles v.threads ≤ total handles w.threads)
      × (total handles v.threads ≤ w.shared.active_handlers)
no_new_handlers ps {w} {v} h path past later =
    let (_, some_run) = active_handlers_exact ps h path in
    let kept =
      Reach_keeps Move (Fewer (total handles w.threads)) (Step-Fewer (total handles w.threads))
        later (record { past = past; fewer = omega arith }) in
    (kept.fewer, omega (arith, kept.fewer, some_run))
