-- ===== src/Http/Cors/Applied.antt =====
-- The headers that a response carries in the end.
use asio_owen.Prelude.{
  Bool, true, false, not, List, [], ◌∷◌, ◌++◌, append-nil, if◌then◌else◌, Option, some, none, Bytes,
  codes, bytes_eq, map, keep, is_empty, ◌≡◌, ◌⊎◌, inl, inr, refl, sym, ap, subst, ◌∙◌, Bool-cases,
}
use asio_owen.Http.Headers.{Header, header_iequals}
use asio_owen.Http.Context.{HttpContext, get_header}
use asio_owen.Http.Cors.{
  CorsPolicy, resolve_origin, is_cors_header, strip_cors_headers, header_if, origin_headers,
  granted_headers, apply_cors_headers, int_to_string, preflight_headers, preflight_for,
  build_preflight_response,
}

abbrev is_allow_origin : Header → Bool
is_allow_origin h = header_iequals h.0 (codes "access-control-allow-origin")

-- The values under `Access-Control-Allow-Origin`.
abbrev pub allow_origins : List Header → List Bytes
allow_origins headers = map (λ h. h.1) (keep is_allow_origin headers)

abbrev pub to_list : Option Bytes → List Bytes
to_list none = []
to_list (some a) = a ∷ []

allow_origins-append :
    (a b : List Header) → allow_origins (a ++ b) ≡ allow_origins a ++ allow_origins b
allow_origins-append [] b = refl
allow_origins-append (h ∷ a) b = elim (Bool-cases (is_allow_origin h)) [
  | inl e ↦ rw (e, keep) (ap (λ t. h.1 ∷ t) (allow_origins-append a b))
  | inr e ↦ rw (e, keep) (allow_origins-append a b)
]

strip_cors_headers_none : (headers : List Header) → allow_origins (strip_cors_headers headers) ≡ []
unfolding strip_cors_headers is_cors_header
strip_cors_headers_none [] = refl
strip_cors_headers_none (h ∷ headers) =
    elim (Bool-cases (header_iequals h.0 (codes "access-control-allow-origin"))) [
      | inl e ↦ rw e (strip_cors_headers_none headers)
      | inr e ↦ elim (Bool-cases (is_cors_header h.0)) [
        | inl f ↦ rw (f, strip_cors_headers) (strip_cors_headers_none headers)
        | inr f ↦ rw (f, e, strip_cors_headers, keep) (strip_cors_headers_none headers)
      ]
    ]

append_others :
    (a b : List Header) {xs : List Bytes}
    → allow_origins a ≡ xs
    → allow_origins b ≡ []
    → allow_origins (a ++ b) ≡ xs
append_others a b {xs} e f =
    allow_origins-append a b
    ∙ ap (λ t. t ++ allow_origins b) e
    ∙ ap (λ t. xs ++ t) f
    ∙ append-nil xs

header_if_other :
    (b : Bool) (name value : Bytes)
    → header_iequals name (codes "access-control-allow-origin") ≡ false
    → allow_origins (header_if b name value) ≡ []
header_if_other true name value h = rw (h, keep) refl
header_if_other false name value h = refl

origin_headers_lem : (a : Bytes) → allow_origins (origin_headers a) ≡ a ∷ []
unfolding header_iequals
origin_headers_lem a =
    ap (λ t. a ∷ t)
      (header_if_other (not (bytes_eq a (codes "*"))) (codes "Vary") (codes "Origin") refl)

granted_headers_lem :
    (p : CorsPolicy) (o : Option Bytes) → allow_origins (granted_headers p o) ≡ to_list o
unfolding header_iequals
granted_headers_lem p none = refl
granted_headers_lem p (some a) =
    append_others
      (origin_headers a
        ++ header_if p.allow_credentials (codes "Access-Control-Allow-Credentials") (codes "true"))
      (header_if (not (is_empty p.expose_headers)) (codes "Access-Control-Expose-Headers")
        p.expose_headers)
      (append_others (origin_headers a)
        (header_if p.allow_credentials (codes "Access-Control-Allow-Credentials") (codes "true"))
        (origin_headers_lem a)
        (header_if_other p.allow_credentials (codes "Access-Control-Allow-Credentials")
          (codes "true") refl))
      (header_if_other (not (is_empty p.expose_headers)) (codes "Access-Control-Expose-Headers")
        p.expose_headers refl)

-- A policy that is off leaves the response alone; under one that is on, whatever the upstream sent,
-- the origins that the response allows are the one that the policy grants, or none.
apply_cors_headers-allow_origins :
    (ctx : HttpContext) (p : CorsPolicy)
    → ((p.enabled ≡ false) × (apply_cors_headers ctx p ≡ ctx))
      ⊎ ((p.enabled ≡ true)
          × (allow_origins (apply_cors_headers ctx p).response_headers
              ≡ to_list (resolve_origin p (get_header ctx (codes "Origin")))))
unfolding apply_cors_headers
apply_cors_headers-allow_origins ctx p = elim (Bool-cases p.enabled) [
  | inr e ↦ inl (e, rw e refl)
  | inl e ↦
      let o = resolve_origin p (get_header ctx (codes "Origin")) in
      let owned : HttpContext = record ctx {
        response_headers = strip_cors_headers ctx.response_headers ++ granted_headers p o;
      } in
      inr (
        e,
        ap (λ b. allow_origins (if not b then ctx else owned).response_headers) e
            ∙ allow_origins-append (strip_cors_headers ctx.response_headers) (granted_headers p o)
            ∙ ap (λ t. t ++ allow_origins (granted_headers p o))
                (strip_cors_headers_none ctx.response_headers)
            ∙ granted_headers_lem p o,
      )
]

-- What a preflight leaves behind: the context as it was, or a bodiless answer for one origin.
abbrev pub IsAnswer : HttpContext → CorsPolicy → HttpContext × Bool → Type 0
IsAnswer ctx p r =
    ((r.1 ≡ false)
      × (r.0 ≡ ctx)
      × ((p.enabled ≡ false) ⊎ (resolve_origin p (get_header ctx (codes "Origin")) ≡ none)))
    ⊎ ((r.1 ≡ true)
        × (r.0.status_code ≡ 204)
        × (r.0.response_body ≡ [])
        × ((allow : Bytes) × (resolve_origin p (get_header ctx (codes "Origin")) ≡ some allow)
            × (allow_origins r.0.response_headers ≡ allow ∷ [])))

preflight_headers_lem :
    (ctx : HttpContext) (p : CorsPolicy) (allow : Bytes)
    → allow_origins (preflight_headers ctx p allow) ≡ allow ∷ []
unfolding header_iequals
preflight_headers_lem ctx p allow =
    let requested = get_header ctx (codes "Access-Control-Request-Headers") in
    let middle : List Header =
      (codes "Access-Control-Allow-Methods", p.allowed_methods)
      ∷ (
        codes "Access-Control-Allow-Headers",
        if is_empty requested then p.allowed_headers else requested,
      )
      ∷ header_if p.allow_credentials (codes "Access-Control-Allow-Credentials") (codes "true") in
    append_others (origin_headers allow ++ middle)
      ((codes "Access-Control-Max-Age", int_to_string p.max_age) ∷ [])
      (append_others (origin_headers allow) middle (origin_headers_lem allow) (
        header_if_other p.allow_credentials (codes "Access-Control-Allow-Credentials")
          (codes "true") refl))
      refl

-- A preflight is answered with 204 and no body for the origin that the policy grants; if the policy
-- is off or grants none, it is not answered and the context stays as it was.
build_preflight_response-IsAnswer :
    (ctx : HttpContext) (p : CorsPolicy) → IsAnswer ctx p (build_preflight_response ctx p)
unfolding build_preflight_response
build_preflight_response-IsAnswer ctx p = elim (Bool-cases p.enabled) [
  | inr e ↦ subst (λ b. IsAnswer ctx p (of b)) (sym e) (inl (refl, refl, inl e))
  | inl e ↦
      subst (λ b. IsAnswer ctx p (of b)) (sym e)
        (go (resolve_origin p (get_header ctx (codes "Origin"))) refl)
]
  where
    of : Bool → HttpContext × Bool
    of b =
        if not b
        then (ctx, false)
        else preflight_for ctx p (resolve_origin p (get_header ctx (codes "Origin")))

    go :
        (o : Option Bytes)
        → resolve_origin p (get_header ctx (codes "Origin")) ≡ o
        → IsAnswer ctx p (preflight_for ctx p o)
    go none f = inl (refl, refl, inr f)
    go (some allow) f = inr (refl, refl, refl, (allow, f, preflight_headers_lem ctx p allow))
