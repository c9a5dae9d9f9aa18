-- ===== src/Lifecycle/Combo/Race.antt =====
-- One winner, and the permit is given back once, when the query is over.
use asio_owen.Prelude.{
  ◌+◌, Bool, true, false, if◌then◌else◌, ◌≡◌, List, [], ◌∷◌, map, refl, arith, any,
}
use asio_owen.Lifecycle.Combo.{
  pending, query, timeout, QueryState, release_permit, Claim, by_query, by_timeout, race,
}

abbrev pub begin : QueryState
begin = record { winner = pending; permit = true; releases = 0 }

abbrev pub is_query : Claim → Bool
is_query by_query = true
is_query by_timeout = false

-- After the query has won nothing changes.
race_query :
    (cs : List Claim) (s : QueryState) → s.winner ≡ query → race cs s ≡ (map (λ _. false) cs, s)
unfolding race
race_query [] s h = refl
race_query (by_query ∷ cs) s h = ground (arith, race_query cs s h)
race_query (by_timeout ∷ cs) s h = ground (arith, race_query cs s h)

-- After the deadline has won every claim is lost, and the first claim of the query gives the
-- permit back.
race_timeout :
    (cs : List Claim) (s : QueryState)
    → s.winner ≡ timeout
    → ((race cs s).0 ≡ map (λ _. false) cs)
      × ((race cs s).1.releases ≡ (
          if any is_query cs
          then (if s.permit then s.releases + 1 else s.releases)
          else s.releases))
      × ((race cs s).1.winner ≡ timeout)
unfolding race
race_timeout [] s h = (refl, refl, h)
race_timeout (by_query ∷ cs) s h = ground (arith, race_timeout cs (release_permit s))
race_timeout (by_timeout ∷ cs) s h = ground (arith, race_timeout cs s h)

-- Whatever the order of the claims, the first one wins and no other does; the permit is given back
-- once if the query was among them, and not at all if only the deadline was.
pub race-begin :
    (c : Claim) (cs : List Claim)
    → ((race (c ∷ cs) begin).0 ≡ true ∷ map (λ _. false) cs)
      × ((race (c ∷ cs) begin).1.releases ≡ (if any is_query (c ∷ cs) then 1 else 0))
unfolding race
race-begin by_query cs =
    ground (arith, race_query cs (release_permit (record begin { winner = query })))
race-begin by_timeout cs = ground (arith, race_timeout cs (record begin { winner = timeout }))
