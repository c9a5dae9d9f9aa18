-- ===== src/Security/PathRules/Boundary.antt =====
-- What a path rule covers, and that the longest rule decides.
use asio_owen.Prelude.{
  ℕ, ◌≤◌, Bool, true, false, not, ◌&&◌, ◌||◌, List, [], All-imp, ◌∷◌, ◌++◌, ◌==◌, ◌≡◌, ◌↔◌, ◌⊎◌,
  inl, inr, refl, sym, ap, ◌∙◌, arith, Option, some, none, Bytes, bytes_eq_iff, starts_with,
  is_empty, back?, get_elem?, length, length-append, any, All, All-In, In, here, there, find_first,
  find_first-In, find_first-none, Bool-cases, append-nil, starts_with-append, starts_with_self,
  Option-cases,
}
use asio_owen.Security.Longest.{
  sort_longest, any-sort_longest, sort_longest-In, find_first-sort_longest,
}
use asio_owen.Security.PathRules.{
  Rule, rule_matches, is_byte, plain_paths, role_rules, rule_length, path_length, reload, fits,
  check, extract_role_from_val,
}

get_elem?-append : (p : Bytes) (r : Bytes) → get_elem? (p ++ r) (length p) ≡ get_elem? r 0
get_elem?-append [] r = refl
get_elem?-append (c ∷ p) r = get_elem?-append p r

-- What lies behind the prefix is nothing, begins with a slash, or the prefix itself ends with one.
abbrev pub AtBoundary : Bytes → Bytes → Type 0
AtBoundary p r = (is_byte b'/' (back? p) || is_empty r || is_byte b'/' (get_elem? r 0)) ≡ true

length-append_empty : (p r : Bytes) → (length (p ++ r) == length p) ≡ is_empty r
length-append_empty p [] = ground (arith, length-append p [])
length-append_empty p (c ∷ r) = ground (arith, length-append p (c ∷ r))

rule_matches_behind :
    (p r : Bytes)
    → rule_matches (p ++ r) p
      ≡ (is_byte b'/' (back? p) || is_empty r || is_byte b'/' (get_elem? r 0))
unfolding rule_matches
rule_matches_behind p r = ground (
  arith,
  starts_with_self p r,
  length-append_empty p r,
  get_elem?-append p r,
  bytes_eq_iff (p ++ r) p,
  same,
)
  where
    same : p ++ r ≡ p → is_empty r ≡ true
    same e = sym (length-append_empty p r) ∙ ground (arith, ap length e)

-- A rule covers exactly the paths that go on from it at a segment boundary.
rule_matches_iff :
    (path p : Bytes)
    → (rule_matches path p ≡ true) ↔ ((r : Bytes) × (path ≡ p ++ r) × AtBoundary p r)
unfolding rule_matches
rule_matches_iff path p = (forth, back)
  where
    equal_only :
        starts_with p path ≡ false
        → rule_matches path p ≡ true
        → (r : Bytes) × (path ≡ p ++ r) × AtBoundary p r
    equal_only n h = ([], ground (arith, bytes_eq_iff path p, append-nil p), ground arith)

    forth : rule_matches path p ≡ true → (r : Bytes) × (path ≡ p ++ r) × AtBoundary p r
    forth h = elim (Bool-cases (starts_with p path)) [
      | inl e ↦
          let (r, q) = starts_with-append p path e in
          (r, q, sym (rule_matches_behind p r) ∙ (rw q at h))
      | inr e ↦ equal_only e h
    ]

    back : (r : Bytes) × (path ≡ p ++ r) × AtBoundary p r → rule_matches path p ≡ true
    back (r, q, b) = rw q (rule_matches_behind p r ∙ b)

-- An item of the section blocks a path: it has a key and no value, and the key covers the path.
abbrev pub blocks : Bytes → Rule → Bool
blocks path (key, val) = not (is_empty key) && is_empty val && rule_matches path key

abbrev pub demands : Bytes → Rule → Bool
demands path (key, val) = not (is_empty key) && not (is_empty val) && rule_matches path key

any-plain_paths :
    (path : Bytes) (items : List Rule)
    → any (rule_matches path) (plain_paths items) ≡ any (blocks path) items
unfolding plain_paths
any-plain_paths path [] = refl
any-plain_paths path ((key, val) ∷ items) = ground (arith, any-plain_paths path items)

any-role_rules :
    (path : Bytes) (items : List Rule)
    → any (fits path) (role_rules items) ≡ any (demands path) items
unfolding role_rules
any-role_rules path [] = refl
any-role_rules path ((key, val) ∷ items) = ground (arith, any-role_rules path items)

-- The order of the rules plays no part: a path is blocked exactly when an item blocks it.
pub blocked-reload :
    (items : List Rule) (path : Bytes)
    → (check (reload items) path).blocked ≡ any (blocks path) items
unfolding check reload
blocked-reload items path = ground (
  arith,
  any-sort_longest path_length (rule_matches path) (plain_paths items),
  any-plain_paths path items,
)

role_rules-In : (r : Rule) (items : List Rule) → In r (role_rules items) → In r items
unfolding role_rules
role_rules-In r [] m = m
role_rules-In r ((key, val) ∷ items) m =
    elim (Bool-cases (not (is_empty key) && not (is_empty val))) [
      | inl e ↦ shift (rw e at m) (role_rules-In r items)
      | inr e ↦ there (role_rules-In r items (rw e at m))
    ]
  where
    shift :
        In r ((key, val) ∷ role_rules items)
        → (In r (role_rules items) → In r items)
        → In r ((key, val) ∷ items)
    shift (here e) f = here e
    shift (there n) f = there (f n)

-- What a match of the section's items must satisfy to be no longer than `n`.
abbrev NoLongerIf : Bytes → ℕ → Rule → Type 0
NoLongerIf path n r = demands path r ≡ true → rule_length r ≤ n

role_rules-NoLongerIf :
    (path : Bytes) (n : ℕ) (items : List Rule)
    → All (λ r. fits path r ≡ true → rule_length r ≤ n) (role_rules items)
    → All (NoLongerIf path n) items
unfolding role_rules
role_rules-NoLongerIf path n [] h = tt
role_rules-NoLongerIf path n ((key, val) ∷ items) h =
    elim (Bool-cases (not (is_empty key) && not (is_empty val))) [
      | inl e ↦
          let h' : (rule_matches path key ≡ true → length key ≤ n)
              × All (λ r. fits path r ≡ true → rule_length r ≤ n) (role_rules items) =
            rw e at h in
          ((λ d. h'.0 (ground arith)), role_rules-NoLongerIf path n items h'.1)
      | inr e ↦ ((λ d. absurd (ground arith)), role_rules-NoLongerIf path n items (rw e at h))
    ]

role_rules-full :
    (items : List Rule)
    → All (λ r. (not (is_empty r.0) && not (is_empty r.1)) ≡ true) (role_rules items)
unfolding role_rules
role_rules-full [] = tt
role_rules-full ((key, val) ∷ items) =
    elim (Bool-cases (not (is_empty key) && not (is_empty val))) [
      | inl e ↦ rw e (e, role_rules-full items)
      | inr e ↦ rw e (role_rules-full items)
    ]

required_role_none :
    (items : List Rule) (path : Bytes)
    → (check (reload items) path).blocked ≡ false
    → find_first (fits path) (sort_longest rule_length (role_rules items)) ≡ none
    → (check (reload items) path).required_role ≡ []
unfolding check reload
required_role_none items path h n = ground arith

required_role_some :
    (items : List Rule) (path : Bytes) (r : Rule)
    → (check (reload items) path).blocked ≡ false
    → find_first (fits path) (sort_longest rule_length (role_rules items)) ≡ some r
    → (check (reload items) path).required_role ≡ extract_role_from_val r.1
unfolding check reload
required_role_some items path r h n = ground arith

-- The item does not cover the path, or is no longer than `n`.
abbrev pub NoLonger : Bytes → ℕ → Rule → Type 0
NoLonger path n r = (demands path r ≡ false) ⊎ (rule_length r ≤ n)

NoLongerIf-NoLonger : (path : Bytes) (n : ℕ) (r : Rule) → NoLongerIf path n r → NoLonger path n r
NoLongerIf-NoLonger path n r h = elim (Bool-cases (demands path r)) [
  | inl e ↦ inr (h e)
  | inr e ↦ inl e
]

none_longer :
    (path : Bytes) (n : ℕ) (items : List Rule)
    → All (λ r. fits path r ≡ true → rule_length r ≤ n) (role_rules items)
    → All (NoLonger path n) items
none_longer path n items h =
    All-imp (NoLongerIf path n) (NoLonger path n) (NoLongerIf-NoLonger path n) items
      (role_rules-NoLongerIf path n items h)

-- If no item with a value covers an unblocked path, the path needs no role. Otherwise the role that it
-- needs is read from the value of an item that covers it, of which none is longer.
pub required_role-longest :
    (items : List Rule) (path : Bytes)
    → (check (reload items) path).blocked ≡ false
    → ((any (demands path) items ≡ false) × ((check (reload items) path).required_role ≡ []))
      ⊎ ((r : Rule) × In r items
          × (demands path r ≡ true)
          × ((check (reload items) path).required_role ≡ extract_role_from_val r.1)
          × All (NoLonger path (rule_length r)) items)
required_role-longest items path h = elim (Option-cases first) [
  | inl n ↦ inl (
    sym (any-role_rules path items)
        ∙ sym (any-sort_longest rule_length (fits path) (role_rules items))
        ∙ find_first-none (fits path) sorted n,
    required_role_none items path h n,
  )
  | inr (r, e) ↦
      let (m, f) = find_first-In (fits path) sorted r e in
      let m' = sort_longest-In rule_length r (role_rules items) m in
      let full = All-In _ (role_rules-full items) m' in
      inr (
        r,
        role_rules-In r items m',
        ground arith,
        required_role_some items path r h e,
        none_longer path (rule_length r) items
            (find_first-sort_longest rule_length (fits path) (role_rules items) r e),
      )
]
  where
    sorted : List Rule
    sorted = sort_longest rule_length (role_rules items)

    first : Option Rule
    first = find_first (fits path) sorted
