-- ===== src/Security/Address/Client.antt =====
-- Who the client is: a forwarded address counts only where a trusted proxy vouches for it.
use mathlib.Core.List.{reverse, reverse-reverse, reverse-append, reverse-cons}
use asio_owen.Prelude.{
  Bool, true, false, ◌||◌, List, [], ◌∷◌, ◌++◌, if◌then◌else◌, ◌≡◌, ◌⊎◌, inl, inr, refl, sym, ap,
  ◌∙◌, arith, Option, some, none, Bytes, bytes_eq, is_empty, any, All, All-append, Bool-cases,
  append_assoc, has_byte,
}
use asio_owen.Security.Address.{
  AddressLib, is_trusted, first_untrusted, forwarded_ips, get_client_ip, normalize_ip_str,
  parse_cidr_rule, match_cidr, exact_items, cidr_items, reload, is_blocked,
}

module _ (lib : AddressLib) where
  -- Without a trusted proxy at the other end, the header plays no part.
  pub get_client_ip_direct :
      (direct xff_header : Bytes) (trusted : List Bytes)
      → is_trusted lib trusted direct ≡ false
      → get_client_ip lib (some direct) xff_header trusted ≡ direct
  unfolding get_client_ip
  get_client_ip_direct direct xff_header trusted h = rw h

  -- Where the scan ends, and what it passed.
  abbrev pub Picks : List Bytes → List Bytes → Option Bytes → Type 0
  Picks trusted ips none = All (λ ip. is_trusted lib trusted ip ≡ true) ips
  Picks trusted ips (some ip) =
      (is_trusted lib trusted ip ≡ false)
      × ((before : List Bytes) × (after : List Bytes) × (ips ≡ before ++ ip ∷ after)
          × All (λ p. is_trusted lib trusted p ≡ true) before)

  first_untrusted-Picks :
      (trusted ips : List Bytes) → Picks trusted ips (first_untrusted lib trusted ips)
  unfolding first_untrusted
  first_untrusted-Picks trusted [] = tt
  first_untrusted-Picks trusted (ip ∷ ips) = elim (Bool-cases (is_trusted lib trusted ip)) [
    | inl e ↦ rw e (later e (first_untrusted lib trusted ips) (first_untrusted-Picks trusted ips))
    | inr e ↦ rw e (e, ([], ips, refl, tt))
  ]
    where
      later :
          is_trusted lib trusted ip ≡ true
          → (o : Option Bytes) → Picks trusted ips o
          → Picks trusted (ip ∷ ips) o
      later e none h = (e, h)
      later e (some a) (u, (before, after, q, t)) = (u, (ip ∷ before, after, ap (◌∷◌ ip) q, (e, t)))

  All-reverse {κ} : (P : Bytes → Type κ) (xs : List Bytes) → All P xs → All P (reverse xs)
  All-reverse P [] h = tt
  All-reverse P (x ∷ xs) h =
      rw (reverse-cons x xs) (All-append P (reverse xs) (x ∷ []) (All-reverse P xs h.1) (h.0, tt))

  reverse_split :
      (ip : Bytes) (ips before after : List Bytes)
      → reverse ips ≡ before ++ ip ∷ after
      → ips ≡ reverse after ++ ip ∷ reverse before
  reverse_split ip ips before after e =
      sym (reverse-reverse ips)
      ∙ ap reverse e
      ∙ reverse-append before (ip ∷ after)
      ∙ ap (λ l. l ++ reverse before) (reverse-cons ip after)
      ∙ append_assoc (reverse after) (ip ∷ []) (reverse before)

  -- The last address of the header that is no trusted proxy, if there is one.
  abbrev pub RightmostUntrusted : List Bytes → List Bytes → Bytes → Type 0
  RightmostUntrusted trusted ips ip =
      (is_trusted lib trusted ip ≡ false)
      × ((left : List Bytes) × (right : List Bytes) × (ips ≡ left ++ ip ∷ right)
          × All (λ p. is_trusted lib trusted p ≡ true) right)

  picked :
      (direct : Bytes) (trusted ips : List Bytes) (o : Option Bytes)
      → Picks trusted (reverse ips) o
      → (All (λ p. is_trusted lib trusted p ≡ true) ips
          × ((elim o [ none ↦ direct | some ip ↦ ip ]) ≡ direct))
        ⊎ RightmostUntrusted trusted ips (elim o [ none ↦ direct | some ip ↦ ip ])
  picked direct trusted ips none h =
      inl (rw (reverse-reverse ips) at (All-reverse _ (reverse ips) h), refl)
  picked direct trusted ips (some ip) (u, (before, after, e, t)) = inr (
    u,
    (reverse after, reverse before, reverse_split ip ips before after e, All-reverse _ before t),
  )

  -- Behind a trusted proxy the client is the rightmost address of the header that is no trusted
  -- proxy itself, and the peer if there is none.
  pub get_client_ip_forwarded :
      (direct xff_header : Bytes) (trusted : List Bytes)
      → is_trusted lib trusted direct ≡ true
      → is_empty xff_header ≡ false
      → (All (λ p. is_trusted lib trusted p ≡ true) (forwarded_ips xff_header)
          × (get_client_ip lib (some direct) xff_header trusted ≡ direct))
        ⊎ RightmostUntrusted trusted
            (forwarded_ips xff_header)
            (get_client_ip lib (some direct) xff_header trusted)
  unfolding get_client_ip
  get_client_ip_forwarded direct xff_header trusted h n =
      rw (h, n)
        (picked direct trusted (forwarded_ips xff_header)
          (first_untrusted lib trusted (reverse (forwarded_ips xff_header)))
          (first_untrusted-Picks trusted (reverse (forwarded_ips xff_header))))

  -- What one configured item blocks, for an address that is normalized.
  abbrev pub bars : Bytes → Bytes → Bool
  bars ip item =
      if has_byte b'/' item
      then (elim (parse_cidr_rule lib item) [ none ↦ false | some rule ↦ match_cidr lib ip rule ])
      else bytes_eq ip (normalize_ip_str lib item)

  any_items :
      (ip : Bytes) (items : List Bytes)
      → (any (bytes_eq ip) (exact_items lib items)
          || any (match_cidr lib ip) (cidr_items lib items))
        ≡ any (bars ip) items
  unfolding exact_items cidr_items
  any_items ip [] = refl
  any_items ip (item ∷ items) = ground (arith, any_items ip items)

  -- An address is blocked exactly when an item bars it: a plain item by its normalized text, an
  -- item with a slash as a range of addresses, and one that does not parse never.
  is_blocked-reload :
      (items : List Bytes) (ip : Bytes)
      → is_blocked lib (reload lib items) ip ≡ any (bars (normalize_ip_str lib ip)) items
  unfolding is_blocked reload
  is_blocked-reload items ip = any_items (normalize_ip_str lib ip) items
