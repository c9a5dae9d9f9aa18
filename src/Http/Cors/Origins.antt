-- ===== src/Http/Cors/Origins.antt =====
-- The policy that is loaded allows what the configuration lists, and no more.
use asio_owen.Prelude.{
  Bool, true, false, not, ◌&&◌, ◌||◌, List, [], ◌∷◌, some, none, some-injective, Bytes, codes,
  bytes_eq, bytes_eq_iff, any, map, is_empty, trim, split_on, All, All-In, All-imp, In, here, there,
  pos, ok, >>=-eq-ok, ok-injective, ◌≡◌, ◌⊎◌, inl, inr, refl, sym, subst, arith, Bool-cases,
}
use asio_owen.Config.{Config, get, get_bool, get_int}
use asio_owen.Http.Cors.{
  CorsPolicy, default_policy, resolve_origin, add_origin, add_origins, guard_credentials, section,
  load_max_age, with_texts, with_numbers, load_settings, load_if, load_cors_policy,
}

any-In : (origin : Bytes) (os : List Bytes) → any (λ o. bytes_eq o origin) os ≡ true → In origin os
any-In origin [] h = cc
any-In origin (o ∷ os) h = elim (Bool-cases (bytes_eq o origin)) [
  | inl e ↦ here (sym ((bytes_eq_iff o origin).0 e))
  | inr e ↦ there (any-In origin os (ground arith))
]

module _ (listed : List Bytes) where
  -- What the policy allows is listed.
  record IsListed (p : CorsPolicy) : Type 0 where
    origins : All (λ o. In o listed) p.allowed_origins
    wildcard : p.allow_all_origins ≡ true → In (codes "*") listed

  add_origin-IsListed :
      (p : CorsPolicy) (token : Bytes)
      → In token listed
      → IsListed p
      → IsListed (add_origin p token)
  add_origin-IsListed p token m h = elim (Bool-cases (is_empty token)) [
    | inl e ↦ rw (e, add_origin) h
    | inr e ↦ elim (Bool-cases (bytes_eq token (codes "*"))) [
      | inl f ↦
          rw (e, f, add_origin)
            (record {
              origins = h.origins;
              wildcard = λ _. subst (λ t. In t listed) ((bytes_eq_iff token (codes "*")).0 f) m;
            })
      | inr f ↦ rw (e, f, add_origin) (record { origins = (m, h.origins); wildcard = h.wildcard })
    ]
  ]

  add_origins-IsListed :
      (p : CorsPolicy) (tokens : List Bytes)
      → All (λ t. In t listed) tokens
      → IsListed p
      → IsListed (add_origins p tokens)
  unfolding add_origins
  add_origins-IsListed p [] m h = h
  add_origins-IsListed p (token ∷ tokens) m h =
      add_origins-IsListed (add_origin p token) tokens m.1 (add_origin-IsListed p token m.0 h)

  -- The answer for an origin under a policy that is guarded.
  abbrev pub IsAllowed : CorsPolicy → Bytes → Bytes → Type 0
  IsAllowed p origin a =
      ((a ≡ codes "*") × (p.allow_credentials ≡ false) × In (codes "*") listed)
      ⊎ ((a ≡ origin) × In origin listed)

  resolve_origin-IsAllowed :
      (p : CorsPolicy) (origin a : Bytes)
      → IsListed p
      → (p.allow_all_origins && p.allow_credentials) ≡ false
      → resolve_origin p origin ≡ some a
      → IsAllowed p origin a
  unfolding resolve_origin
  resolve_origin-IsAllowed p origin a l g h = elim (Bool-cases (not p.enabled || is_empty origin)) [
    | inl e ↦ absurd (nothing (rw e at h))
    | inr e ↦ elim (Bool-cases p.allow_all_origins) [
      | inl w ↦
          let off : p.allow_credentials ≡ false = ground arith in
          inl (sym (some-injective (codes "*") a (rw (e, w, off) at h)), off, l.wildcard w)
      | inr w ↦ elim (Bool-cases (any (λ o. bytes_eq o origin) p.allowed_origins)) [
        | inl m ↦ inr (
          sym (some-injective origin a (rw (e, w, m) at h)),
          All-In (λ o. In o listed) l.origins (any-In origin p.allowed_origins m),
        )
        | inr m ↦ absurd (nothing (rw (e, w, m) at h))
      ]
    ]
  ]
    where
      nothing : none ≡ some a → ⊥
      nothing k = cc

-- A policy that is loaded.
abbrev IsLoaded : List Bytes → CorsPolicy → Type 0
IsLoaded listed p = IsListed listed p × ((p.allow_all_origins && p.allow_credentials) ≡ false)

guard_credentials-IsLoaded :
    (listed : List Bytes) (p : CorsPolicy)
    → IsListed listed p
    → IsLoaded listed (guard_credentials p)
unfolding guard_credentials
guard_credentials-IsLoaded listed p h =
    elim (Bool-cases (p.allow_all_origins && p.allow_credentials)) [
      | inl e ↦ rw e (record { origins = h.origins; wildcard = h.wildcard }, ground arith)
      | inr e ↦ rw e (h, e)
    ]

load_max_age-IsLoaded :
    (listed : List Bytes) (cfg : Config) (q : CorsPolicy) (credentials : Bool) {p : CorsPolicy}
    → IsListed listed q
    → load_max_age cfg q credentials ≡ ok p
    → IsLoaded listed p
unfolding load_max_age
load_max_age-IsLoaded listed cfg q credentials {p} l h =
    let (max_age, _, k) =
      >>=-eq-ok (get_int cfg section (codes "max_age") (pos 600))
        (λ n. ok (guard_credentials (with_numbers q credentials n))) h in
    subst (IsLoaded listed)
      (ok-injective (guard_credentials (with_numbers q credentials max_age)) p k)
      (guard_credentials-IsLoaded listed (with_numbers q credentials max_age)
        (record { origins = l.origins; wildcard = l.wildcard }))

load_settings-IsLoaded :
    (listed : List Bytes) (cfg : Config) (q : CorsPolicy) {p : CorsPolicy}
    → IsListed listed q
    → load_settings cfg q ≡ ok p
    → IsLoaded listed p
unfolding load_settings
load_settings-IsLoaded listed cfg q {p} l h =
    let (credentials, _, k) =
      >>=-eq-ok (get_bool cfg section (codes "allow_credentials") false)
        (load_max_age cfg (with_texts cfg q)) h in
    load_max_age-IsLoaded listed cfg (with_texts cfg q) credentials
      (record { origins = l.origins; wildcard = l.wildcard }) k

All-In_self : (xs : List Bytes) → All (λ x. In x xs) xs
All-In_self [] = tt
All-In_self (x ∷ xs) =
    (here refl, All-imp (λ y. In y xs) (λ y. In y (x ∷ xs)) (λ y m. there m) xs (All-In_self xs))

abbrev pub listed_origins : Config → List Bytes
listed_origins cfg = map trim (split_on b',' (get cfg section (codes "allowed_origins") []))

load_if-IsLoaded :
    (cfg : Config) (enabled : Bool) {p : CorsPolicy}
    → load_if cfg enabled ≡ ok p
    → IsLoaded (listed_origins cfg) p
unfolding load_if
load_if-IsLoaded cfg false {p} h =
    subst (IsLoaded (listed_origins cfg)) (ok-injective default_policy p h)
      (record { origins = tt; wildcard = λ e. cc }, refl)
load_if-IsLoaded cfg true {p} h =
    load_settings-IsLoaded (listed_origins cfg) cfg _
      (add_origins-IsListed (listed_origins cfg) (record default_policy { enabled = true })
        (listed_origins cfg) (All-In_self (listed_origins cfg))
        (record { origins = tt; wildcard = λ e. cc }))
      h

-- Under a policy that was loaded, an origin that is allowed is listed in the configuration and is
-- echoed, or the list has the wildcard, which is then sent and never goes with credentials.
pub load_cors_policy-IsAllowed :
    (cfg : Config) {p : CorsPolicy} (origin : Bytes) {a : Bytes}
    → load_cors_policy cfg ≡ ok p
    → resolve_origin p origin ≡ some a
    → IsAllowed (listed_origins cfg) p origin a
unfolding load_cors_policy
load_cors_policy-IsAllowed cfg {p} origin {a} h r =
    let (enabled, _, k) =
      >>=-eq-ok (get_bool cfg section (codes "enabled") false) (load_if cfg) h in
    let (l, g) = load_if-IsLoaded cfg enabled k in
    resolve_origin-IsAllowed (listed_origins cfg) p origin a l g r
