-- ===== src/Lifecycle/Combo/InFlight.antt =====
-- Never more permits than the limit.
use asio_owen.Prelude.{ℕ, ◌+◌, ◌≤◌, ltb, leb, if◌then◌else◌, ◌≡◌, List, [], ◌∷◌, All, refl, arith}
use asio_owen.Lifecycle.Threads.{World, total, Counts, Step-Counts, Reach, Reach_keeps}
use asio_owen.Lifecycle.Handlers.{fetch_sub_one}
use asio_owen.Lifecycle.Combo.{
  Counter, make_counter, Place, without, trying, Move, load, full, room, acquired, missed, release,
  has_permit,
}

module _ (limit : ℕ) where
  -- A thread about to add one has seen room.
  abbrev bad : Place → ℕ
  bad (trying n) = if leb limit n then 1 else 0
  bad _ = 0

  abbrev WithinLimit : Counter → Type 0
  WithinLimit s = (s.max_in_flight ≡ limit) × (s.in_flight ≤ limit)

  Move-keeps :
      (others : ℕ) (s : Counter) (p : Place) (t : Counter) (q : Place)
      → Move s p t q
      → s.in_flight ≡ others + has_permit p
      → bad p ≡ 0
      → WithinLimit s
      → (t.in_flight ≡ others + has_permit q) × (bad q ≡ 0) × WithinLimit t
  unfolding fetch_sub_one
  Move-keeps others s p t q load a b c = (a, refl, c)
  Move-keeps others s p t q (full h) a b c = (a, refl, c)
  Move-keeps others s p t q (room h) a b c = ground arith
  Move-keeps others s p t q (acquired e) a b c = ground arith
  Move-keeps others s p t q missed a b c = (a, refl, c)
  Move-keeps others s p t q release a b c = ground arith

abbrev pub AllWithout : List Place → Type 0
AllWithout = All (λ p. p ≡ without)

AllWithout-total :
    (limit : ℕ) (ps : List Place)
    → AllWithout ps
    → (total has_permit ps ≡ 0) × (total (bad limit) ps ≡ 0)
AllWithout-total limit [] h = (refl, refl)
AllWithout-total limit (p ∷ ps) h = ground (arith, AllWithout-total limit ps h.1)

-- However the threads interleave, the counter is the number of permits that are out, and there are
-- at most as many as the limiter was made for, one if that was none.
in_flight_bounded :
    (max_in_flight : ℕ) (ps : List Place) {w : World Counter Place}
    → AllWithout ps
    → Reach Move (record { shared = make_counter max_in_flight; threads = ps }) w
    → (w.shared.in_flight ≡ total has_permit w.threads)
      × (total has_permit w.threads ≤ (make_counter max_in_flight).max_in_flight)
      × (total has_permit w.threads ≤ (if ltb 1 max_in_flight then max_in_flight else 1))
unfolding make_counter
in_flight_bounded max_in_flight ps {w} h path =
    let limit = (make_counter max_in_flight).max_in_flight in
    let (a, b) = AllWithout-total limit ps h in
    let good =
      Reach_keeps Move (Counts Move has_permit (bad limit) (λ s. s.in_flight) (WithinLimit limit))
        (Step-Counts Move has_permit (bad limit) (λ s. s.in_flight) (WithinLimit limit)
          (Move-keeps limit))
        path (record { exact = omega (arith, a); places = b; fine = (refl, omega arith) }) in
    (good.exact, omega (arith, good.exact, good.fine), ground (arith, good.exact, good.fine))
