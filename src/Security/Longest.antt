-- ===== src/Security/Longest.antt =====
-- `std::sort` by descending length, as the rule lists use it so that the longest prefix comes first.
-- The sort of the standard library leaves open where items of one length end up; this is the
-- stable order, and no theorem below depends on it.
use asio_owen.Prelude.{
  ℕ, ◌≤◌, Bool, true, ◌||◌, List, [], ◌∷◌, ◌≡◌, refl, ap, ◌∙◌, arith, leb, if◌then◌else◌, some, ◌⊎◌,
  inl, inr, any, All, All-imp, In, here, there, find_first, some-injective, Bool-cases,
}

module _ {ℓ} {A : Type ℓ} (size : A → ℕ) where
  unfoldable pub insert_sorted : A → List A → List A
  insert_sorted x [] = x ∷ []
  insert_sorted x (y ∷ ys) = if leb (size y) (size x) then x ∷ y ∷ ys else y ∷ insert_sorted x ys

  unfoldable pub sort_longest : List A → List A
  unfolding insert_sorted
  sort_longest [] = []
  sort_longest (x ∷ xs) = insert_sorted x (sort_longest xs)

module _ {ℓ} {A : Type ℓ} (size : A → ℕ) where
  abbrev IsDescending : List A → Type 0
  IsDescending [] = Unit
  IsDescending (x ∷ xs) = All (λ y. size y ≤ size x) xs × IsDescending xs

  any-insert_sorted :
      (p : A → Bool) (x : A) (xs : List A) → any p (insert_sorted size x xs) ≡ (p x || any p xs)
  unfolding insert_sorted
  any-insert_sorted p x [] = refl
  any-insert_sorted p x (y ∷ xs) = ground (arith, any-insert_sorted p x xs)

  pub any-sort_longest : (p : A → Bool) (xs : List A) → any p (sort_longest size xs) ≡ any p xs
  unfolding sort_longest
  any-sort_longest p [] = refl
  any-sort_longest p (x ∷ xs) =
      any-insert_sorted p x (sort_longest size xs) ∙ ground (arith, any-sort_longest p xs)

  All-insert_sorted {κ} :
      (P : A → Type κ) (x : A) (xs : List A) → P x → All P xs → All P (insert_sorted size x xs)
  unfolding insert_sorted
  All-insert_sorted P x [] h k = (h, tt)
  All-insert_sorted P x (y ∷ xs) h k = elim (Bool-cases (leb (size y) (size x))) [
    | inl e ↦ rw e (h, k)
    | inr e ↦ rw e (k.0, All-insert_sorted P x xs h k.1)
  ]

  insert_sorted-All {κ} :
      (P : A → Type κ) (x : A) (xs : List A) → All P (insert_sorted size x xs) → P x × All P xs
  unfolding insert_sorted
  insert_sorted-All P x [] h = h
  insert_sorted-All P x (y ∷ xs) h = elim (Bool-cases (leb (size y) (size x))) [
    | inl e ↦ rw e at h
    | inr e ↦
        let h' : P y × All P (insert_sorted size x xs) = rw e at h in
        let (a, b) = insert_sorted-All P x xs h'.1 in (a, (h'.0, b))
  ]

  -- What holds of the sorted items holds of all.
  pub sort_longest-All {κ} :
      (P : A → Type κ) (xs : List A) → All P (sort_longest size xs) → All P xs
  unfolding sort_longest
  sort_longest-All P [] h = tt
  sort_longest-All P (x ∷ xs) h =
      let (a, b) = insert_sorted-All P x (sort_longest size xs) h in (a, sort_longest-All P xs b)

  insert_sorted-In : (x a : A) (xs : List A) → In a (insert_sorted size x xs) → (a ≡ x) ⊎ In a xs
  unfolding insert_sorted
  insert_sorted-In x a [] (here e) = inl e
  insert_sorted-In x a [] (there m) = inr m
  insert_sorted-In x a (y ∷ xs) m = elim (Bool-cases (leb (size y) (size x))) [
    | inl e ↦ uncons x (y ∷ xs) (rw e at m)
    | inr e ↦ second (uncons y (insert_sorted size x xs) (rw e at m)) (insert_sorted-In x a xs)
  ]
    where
      uncons : (z : A) (zs : List A) → In a (z ∷ zs) → (a ≡ z) ⊎ In a zs
      uncons z zs (here e) = inl e
      uncons z zs (there n) = inr n

      second :
          (a ≡ y) ⊎ In a (insert_sorted size x xs)
          → (In a (insert_sorted size x xs) → (a ≡ x) ⊎ In a xs)
          → (a ≡ x) ⊎ In a (y ∷ xs)
      second (inl e) f = inr (here e)
      second (inr n) f = elim (f n) [ inl e ↦ inl e | inr k ↦ inr (there k) ]

  pub sort_longest-In : (a : A) (xs : List A) → In a (sort_longest size xs) → In a xs
  unfolding sort_longest
  sort_longest-In a [] m = m
  sort_longest-In a (x ∷ xs) m = elim (insert_sorted-In x a (sort_longest size xs) m) [
    | inl e ↦ here e
    | inr e ↦ there (sort_longest-In a xs e)
  ]

  insert_sorted-IsDescending :
      (x : A) (xs : List A) → IsDescending xs → IsDescending (insert_sorted size x xs)
  unfolding insert_sorted
  insert_sorted-IsDescending x [] h = (tt, tt)
  insert_sorted-IsDescending x (y ∷ xs) h = elim (Bool-cases (leb (size y) (size x))) [
    | inl e ↦ rw e ((ground arith, still (ground arith)), h)
    | inr e ↦ rw e (
      All-insert_sorted (λ z. size z ≤ size y) x xs (ground arith) h.0,
      insert_sorted-IsDescending x xs h.1,
    )
  ]
    where
      still : size y ≤ size x → All (λ z. size z ≤ size x) xs
      still l = All-imp (λ z. size z ≤ size y) (λ z. size z ≤ size x) (λ z k. omega arith) xs h.0

  sort_longest-IsDescending : (xs : List A) → IsDescending (sort_longest size xs)
  unfolding sort_longest
  sort_longest-IsDescending [] = tt
  sort_longest-IsDescending (x ∷ xs) =
      insert_sorted-IsDescending x (sort_longest size xs) (sort_longest-IsDescending xs)

  find_first_longest :
      (p : A → Bool) (xs : List A) (a : A)
      → IsDescending xs
      → find_first p xs ≡ some a
      → All (λ y. p y ≡ true → size y ≤ size a) xs
  find_first_longest p [] a d h = tt
  find_first_longest p (x ∷ xs) a d h = elim (Bool-cases (p x)) [
    | inl e ↦
        let same : x ≡ a = some-injective x a (rw e at h) in
        let first : size x ≤ size a = omega (arith, ap size same) in
        (
          (λ _. first),
          All-imp (λ y. size y ≤ size x) (λ y. p y ≡ true → size y ≤ size a) (λ y k _. omega arith)
              xs d.0,
        )
    | inr e ↦ ((λ t. cc), find_first_longest p xs a d.1 (rw e at h))
  ]

  -- The first match in the sorted list is a longest match of the whole list.
  pub find_first-sort_longest :
      (p : A → Bool) (xs : List A) (a : A)
      → find_first p (sort_longest size xs) ≡ some a
      → All (λ y. p y ≡ true → size y ≤ size a) xs
  find_first-sort_longest p xs a h =
      sort_longest-All (λ y. p y ≡ true → size y ≤ size a) xs
        (find_first_longest p (sort_longest size xs) a (sort_longest-IsDescending xs) h)
