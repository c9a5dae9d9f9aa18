-- ===== src/Security/RateLimit/Keys.antt =====
-- Keys of maps and of the list of recent keys: which are there, once each, and which are removed.
use asio_owen.Prelude.{
  ℕ, suc, zero, ◌+◌, ◌<◌, ◌==◌, Bool, true, false, ◌||◌, List, [], ◌∷◌, map, if◌then◌else◌, some,
  none, Bytes, bytes_eq, bytes_eq_iff, length, take, All, ◌≡◌, refl, ap, arith, inl, inr,
  Bool-cases,
}
use asio_owen.Security.RateLimit.{Node, find_key, erase_key, update_key, erase_node}

abbrev pub has : Bytes → List Bytes → Bool
has k [] = false
has k (j ∷ ks) = bytes_eq k j || has k ks

-- The list without the first `k`.
unfoldable pub remove : Bytes → List Bytes → List Bytes
remove k [] = []
remove k (j ∷ ks) = let rest = j ∷ remove k ks in if bytes_eq k j then ks else rest

abbrev pub Distinct : List Bytes → Type 0
Distinct [] = Unit
Distinct (k ∷ ks) = (has k ks ≡ false) × Distinct ks

pub has-remove :
    (j k : Bytes) (ks : List Bytes)
    → Distinct ks
    → has j (remove k ks) ≡ (if bytes_eq j k then false else has j ks)
unfolding remove
has-remove j k [] h = ground arith
has-remove j k (i ∷ ks) h =
    ground (arith, has-remove j k ks h.1, bytes_eq_iff j k, bytes_eq_iff k i, bytes_eq_iff j i)

pub Distinct-remove : (k : Bytes) (ks : List Bytes) → Distinct ks → Distinct (remove k ks)
unfolding remove
Distinct-remove k [] h = tt
Distinct-remove k (j ∷ ks) h = elim (Bool-cases (bytes_eq k j)) [
  | inl e ↦ rw e h.1
  | inr e ↦ rw e (ground (arith, has-remove j k ks h.1), Distinct-remove k ks h.1)
]

pub length-remove :
    (k : Bytes) (ks : List Bytes) → has k ks ≡ true → length (remove k ks) + 1 ≡ length ks
unfolding remove
length-remove k [] h = cc
length-remove k (j ∷ ks) h = ground (arith, length-remove k ks)

pub remove_absent : (k : Bytes) (ks : List Bytes) → has k ks ≡ false → remove k ks ≡ ks
unfolding remove
remove_absent k [] h = refl
remove_absent k (j ∷ ks) h = ground (arith, remove_absent k ks)

take-take : (n : ℕ) (ks : List Bytes) → take n (take n ks) ≡ take n ks
take-take zero ks = refl
take-take (suc n) [] = refl
take-take (suc n) (k ∷ ks) = ap (λ t. k ∷ t) (take-take n ks)

-- Only the first `n` keys matter for the first `n` after `k` is moved to the front.
take-remove :
    (n : ℕ) (k : Bytes) (ks : List Bytes)
    → take n (remove k (take (suc n) ks)) ≡ take n (remove k ks)
unfolding remove
take-remove zero k [] = refl
take-remove zero k (j ∷ ks) = refl
take-remove (suc n) k [] = refl
take-remove (suc n) k (j ∷ ks) = elim (Bool-cases (bytes_eq k j)) [
  | inl e ↦ rw e (take-take (suc n) ks)
  | inr e ↦ rw e (ap (λ t. j ∷ t) (take-remove n k ks))
]

pub take-to_front :
    (n : ℕ) (k : Bytes) (ks : List Bytes)
    → take n (k ∷ remove k (take n ks)) ≡ take n (k ∷ remove k ks)
take-to_front zero k ks = refl
take-to_front (suc n) k ks = ap (λ t. k ∷ t) (take-remove n k ks)

-- The names of nodes fall from the front to the back.
abbrev pub IsFalling : List Node → Type 0
IsFalling [] = Unit
IsFalling (n ∷ nodes) = All (λ m. m.id < n.id) nodes × IsFalling nodes

abbrev pub node_keys : List Node → List Bytes
node_keys = map (λ n. n.key)

abbrev pub index_of : List Node → List (Bytes × ℕ)
index_of = map (λ n. (n.key, n.id))

module _ {ℓ} {V : Type ℓ} where
  abbrev pub map_keys : List (Bytes × V) → List Bytes
  map_keys = map (λ e. e.0)

  pub map_keys-erase_key :
      (k : Bytes) (m : List (Bytes × V)) → map_keys (erase_key k m) ≡ remove k (map_keys m)
  unfolding remove
  map_keys-erase_key k [] = refl
  map_keys-erase_key k ((j, v) ∷ m) = ground (arith, map_keys-erase_key k m)

  pub length-erase_key :
      (k : Bytes) (m : List (Bytes × V))
      → has k (map_keys m) ≡ true
      → length (erase_key k m) + 1 ≡ length m
  length-erase_key k [] h = cc
  length-erase_key k ((j, v) ∷ m) h = ground (arith, length-erase_key k m)

  pub map_keys-update_key :
      (k : Bytes) (v : V) (m : List (Bytes × V)) → map_keys (update_key k v m) ≡ map_keys m
  map_keys-update_key k v [] = refl
  map_keys-update_key k v ((j, w) ∷ m) = ground (arith, map_keys-update_key k v m)

  pub length-update_key :
      (k : Bytes) (v : V) (m : List (Bytes × V)) → length (update_key k v m) ≡ length m
  length-update_key k v [] = refl
  length-update_key k v ((j, w) ∷ m) = ground (arith, length-update_key k v m)

  pub find_key-none :
      (k : Bytes) (m : List (Bytes × V)) → find_key k m ≡ none → has k (map_keys m) ≡ false
  find_key-none k [] h = refl
  find_key-none k ((j, v) ∷ m) h = ground (arith, find_key-none k m)

  pub find_key-some :
      (k : Bytes) (m : List (Bytes × V))
      → has k (map_keys m) ≡ true
      → (v : V) × (find_key k m ≡ some v)
  find_key-some k [] h = cc
  find_key-some k ((j, v) ∷ m) h = elim (Bool-cases (bytes_eq k j)) [
    | inl e ↦ (v, rw e refl)
    | inr e ↦ let (w, f) = find_key-some k m (ground arith) in (w, rw e f)
  ]

  pub find_key-erase_key_other :
      (j k : Bytes) (m : List (Bytes × V))
      → bytes_eq j k ≡ false
      → find_key j (erase_key k m) ≡ find_key j m
  find_key-erase_key_other j k [] h = refl
  find_key-erase_key_other j k ((i, v) ∷ m) h =
      ground (
        arith,
        find_key-erase_key_other j k m,
        bytes_eq_iff k i,
        bytes_eq_iff j i,
        bytes_eq_iff j k,
      )

  pub find_key-update_key :
      (j k : Bytes) (v : V) (m : List (Bytes × V))
      → has k (map_keys m) ≡ true
      → find_key j (update_key k v m) ≡ (if bytes_eq j k then some v else find_key j m)
  find_key-update_key j k v [] h = cc
  find_key-update_key j k v ((i, w) ∷ m) h =
      ground
        (arith, find_key-update_key j k v m, bytes_eq_iff k i, bytes_eq_iff j i, bytes_eq_iff j k)

-- The node that the index names is the one that holds the key.
found_below :
    (k : Bytes) (nodes : List Node) (id top : ℕ)
    → find_key k (index_of nodes) ≡ some id
    → All (λ m. m.id < top) nodes
    → id < top
found_below k [] id top h b = cc
found_below k (n ∷ nodes) id top h b = ground (arith, found_below k nodes id top)

pub node_keys-erase_node :
    (k : Bytes) (nodes : List Node) (id : ℕ)
    → IsFalling nodes
    → find_key k (index_of nodes) ≡ some id
    → node_keys (erase_node id nodes) ≡ remove k (node_keys nodes)
unfolding erase_node remove
node_keys-erase_node k [] id f h = cc
node_keys-erase_node k (n ∷ nodes) id f h =
    ground (arith, node_keys-erase_node k nodes id f.1, found_below k nodes id n.id, f)

pub index_of-erase_node :
    (k : Bytes) (nodes : List Node) (id : ℕ)
    → IsFalling nodes
    → find_key k (index_of nodes) ≡ some id
    → index_of (erase_node id nodes) ≡ erase_key k (index_of nodes)
unfolding erase_node
index_of-erase_node k [] id f h = cc
index_of-erase_node k (n ∷ nodes) id f h =
    ground (arith, index_of-erase_node k nodes id f.1, found_below k nodes id n.id, f)

pub All-erase_node :
    (top id : ℕ) (nodes : List Node)
    → All (λ m. m.id < top) nodes
    → All (λ m. m.id < top) (erase_node id nodes)
unfolding erase_node
All-erase_node top id [] h = tt
All-erase_node top id (n ∷ nodes) h = elim (Bool-cases (n.id == id)) [
  | inl e ↦ rw e h.1
  | inr e ↦ rw e (h.0, All-erase_node top id nodes h.1)
]

pub IsFalling-erase_node :
    (id : ℕ) (nodes : List Node) → IsFalling nodes → IsFalling (erase_node id nodes)
unfolding erase_node
IsFalling-erase_node id [] h = tt
IsFalling-erase_node id (n ∷ nodes) h = elim (Bool-cases (n.id == id)) [
  | inl e ↦ rw e h.1
  | inr e ↦ rw e (All-erase_node n.id id nodes h.0, IsFalling-erase_node id nodes h.1)
]

pub erase_key_absent :
    (k : Bytes) (nodes : List Node)
    → find_key k (index_of nodes) ≡ none
    → (erase_key k (index_of nodes) ≡ index_of nodes) × (has k (node_keys nodes) ≡ false)
erase_key_absent k [] h = (refl, refl)
erase_key_absent k (n ∷ nodes) h = ground (arith, erase_key_absent k nodes)
