-- ===== src/Http/Response/Fields.antt =====
-- Which headers of an answer reach the client.
use asio_owen.Prelude.{
  ℕ, ◌≤◌, ◌<◌, ◌≢◌, ◌==◌, ◌||◌, not, map, trim, split_on, lower, is_empty, any_none, All-imp,
  bytes_eq_iff, Bool, true, false, List, [], ◌∷◌, ◌++◌, append_assoc, append-nil, if◌then◌else◌,
  Bytes, codes, any, any-append, keep, All, ◌≡◌, ◌⊎◌, inl, inr, refl, sym, ap, ◌∙◌, arith,
  Bool-cases,
}
use asio_owen.Http.Headers.{
  Header, header_iequals, is_hop_by_hop_header, connection_tokens, add_connection_tokens,
  contains_header_name,
}
use asio_owen.Http.Context.{HttpContext}
use asio_owen.Http.Response.{
  http_response_has_no_body, filtered_names, is_break, is_safe_header, is_written, written_headers,
}

header_iequals_sym : (a b : Bytes) → header_iequals a b ≡ header_iequals b a
unfolding header_iequals
header_iequals_sym [] [] = refl
header_iequals_sym [] (y ∷ b) = refl
header_iequals_sym (x ∷ a) [] = refl
header_iequals_sym (x ∷ a) (y ∷ b) = ground (arith, header_iequals_sym a b)

-- The tokens come behind the names that were there.
add_connection_tokens_lem :
    (headers : List Header) (filtered : List Bytes)
    → add_connection_tokens headers filtered ≡ filtered ++ add_connection_tokens headers []
unfolding add_connection_tokens
add_connection_tokens_lem [] filtered = sym (append-nil filtered)
add_connection_tokens_lem ((k, v) ∷ headers) filtered =
    elim (Bool-cases (header_iequals k (codes "connection"))) [
      | inl e ↦ rw e (
          add_connection_tokens_lem headers (filtered ++ connection_tokens v)
          ∙ append_assoc filtered (connection_tokens v) (add_connection_tokens headers [])
          ∙ ap (λ t. filtered ++ t) (sym (add_connection_tokens_lem headers (connection_tokens v))))
      | inr e ↦ rw e (add_connection_tokens_lem headers filtered)
    ]

contains_header_name-append :
    (a b : List Bytes) (k : Bytes)
    → contains_header_name (a ++ b) k ≡ false
    → (contains_header_name a k ≡ false) × (contains_header_name b k ≡ false)
unfolding contains_header_name
contains_header_name-append a b k h =
    ground (arith, any-append (λ candidate. header_iequals candidate k) a b)

abbrev pub hop_by_hop_names : List Bytes
hop_by_hop_names =
    codes "connection"
    ∷ codes "keep-alive"
    ∷ codes "proxy-authenticate"
    ∷ codes "proxy-authorization"
    ∷ codes "te"
    ∷ codes "trailer"
    ∷ codes "transfer-encoding"
    ∷ codes "upgrade"
    ∷ []

contains_header_name_sym :
    (names : List Bytes) (k : Bytes)
    → contains_header_name names k ≡ any (λ name. header_iequals k name) names
unfolding contains_header_name
contains_header_name_sym [] k = refl
contains_header_name_sym (name ∷ names) k =
    ground (arith, header_iequals_sym name k, contains_header_name_sym names k)

is_hop_by_hop_header-names :
    (k : Bytes) → any (λ name. header_iequals k name) hop_by_hop_names ≡ is_hop_by_hop_header k
unfolding is_hop_by_hop_header
is_hop_by_hop_header-names k = ground arith

-- No name for a header up to case.
abbrev pub Differs : Bytes → Bytes → Type 0
Differs a b = lower a ≢ lower b

-- The characters of a name, and those of a value.
abbrev pub IsNameByte : ℕ → Type 0
IsNameByte c = (c ≢ 13) × (c ≢ 10) × (c ≢ 0) × (c ≢ b':')

abbrev pub IsValueByte : ℕ → Type 0
IsValueByte c = (c ≢ 13) × (c ≢ 10) × (c ≢ 0)

abbrev pub HasNoBody : Bytes → ℕ → Type 0
HasNoBody method status =
    (method ≡ codes "HEAD") ⊎ (status ≡ 204) ⊎ (status ≡ 304) ⊎ ((100 ≤ status) × (status < 200))

-- A header that is not `Connection`, or has no token, between commas and without the space round it,
-- that is this name.
abbrev pub NotNamedBy : Bytes → Header → Type 0
NotNamedBy name h =
    Differs h.0 (codes "connection")
    ⊎ All (λ token. (token ≡ []) ⊎ Differs token name) (map trim (split_on b',' h.1))

-- A header that may reach the client.
abbrev pub MayPass : HttpContext → Bytes → Bool → Header → Type 0
MayPass ctx method proxy_response h =
    All IsNameByte h.0
    × All IsValueByte h.1
    × All (Differs h.0) hop_by_hop_names
    × (HasNoBody method ctx.status_code ⊎ Differs h.0 (codes "content-length"))
    × ((proxy_response ≡ false) ⊎ All (NotNamedBy h.0) ctx.response_headers)

lower-header_iequals : (a b : Bytes) → lower a ≡ lower b → header_iequals a b ≡ true
unfolding lower header_iequals
lower-header_iequals [] [] e = refl
lower-header_iequals [] (y ∷ b) e = cc
lower-header_iequals (x ∷ a) [] e = cc
lower-header_iequals (x ∷ a) (y ∷ b) e = ground (arith, lower-header_iequals a b, e)

header_iequals-Differs : (a b : Bytes) → header_iequals a b ≡ false → Differs a b
header_iequals-Differs a b h e = absurd (clash (sym (lower-header_iequals a b e) ∙ h))
  where
    clash : true ≡ false → ⊥
    clash k = cc

is_safe_header-bytes :
    (name value : Bytes)
    → is_safe_header name value ≡ true
    → All IsNameByte name × All IsValueByte value
unfolding is_safe_header
is_safe_header-bytes name value h = (
  All-imp (λ c. (is_break c || c == b':') ≡ false) IsNameByte (λ c e. ground arith) name
      (any_none (λ c. is_break c || c == b':') name (ground arith)),
  All-imp (λ c. is_break c ≡ false) IsValueByte (λ c e. ground arith) value
      (any_none is_break value (ground arith)),
)

hop_by_hop_differ :
    (names : List Bytes) (k : Bytes)
    → any (λ name. header_iequals k name) names ≡ false
    → All (Differs k) names
hop_by_hop_differ names k h =
    All-imp (λ name. header_iequals k name ≡ false) (Differs k)
      (λ name e. header_iequals-Differs k name e) names
      (any_none (λ name. header_iequals k name) names h)

no_body :
    (method : Bytes) (status : ℕ)
    → http_response_has_no_body method status ≡ true
    → HasNoBody method status
unfolding http_response_has_no_body
no_body method status h = ground (arith, bytes_eq_iff method (codes "HEAD"))

tokens_differ :
    (tokens : List Bytes) (k : Bytes)
    → contains_header_name (keep (λ token. not (is_empty token)) tokens) k ≡ false
    → All (λ token. (token ≡ []) ⊎ Differs token k) tokens
unfolding contains_header_name
tokens_differ [] k h = tt
tokens_differ ([] ∷ tokens) k h = (inl refl, tokens_differ tokens k h)
tokens_differ ((c ∷ t) ∷ tokens) k h =
    (inr (header_iequals-Differs (c ∷ t) k (ground arith)), tokens_differ tokens k (ground arith))

not_named :
    (headers : List Header) (k : Bytes)
    → contains_header_name (add_connection_tokens headers []) k ≡ false
    → All (NotNamedBy k) headers
unfolding add_connection_tokens connection_tokens
not_named [] k h = tt
not_named ((n, v) ∷ headers) k h = elim (Bool-cases (header_iequals n (codes "connection"))) [
  | inl e ↦
      let h' : contains_header_name (add_connection_tokens headers (connection_tokens v)) k
          ≡ false =
        rw e at h in
      let (a, b) =
        contains_header_name-append (connection_tokens v) (add_connection_tokens headers []) k (
          ap (λ names. contains_header_name names k)
            (sym (add_connection_tokens_lem headers (connection_tokens v)))
          ∙ h') in
      (inr (tokens_differ (map trim (split_on b',' v)) k a), not_named headers k b)
  | inr e ↦ (inl (header_iequals-Differs n (codes "connection") e), not_named headers k (rw e at h))
]

length_name :
    (b : Bool) (k : Bytes)
    → contains_header_name (if b then [] else codes "content-length" ∷ []) k ≡ false
    → (b ≡ true) ⊎ (header_iequals k (codes "content-length") ≡ false)
unfolding contains_header_name
length_name true k h = inl refl
length_name false k h = inr (ground (arith, header_iequals_sym (codes "content-length") k))

filtered_names_lem :
    (ctx : HttpContext) (method k : Bytes)
    → contains_header_name (filtered_names ctx method) k ≡ false
    → (is_hop_by_hop_header k ≡ false)
      × ((http_response_has_no_body method ctx.status_code ≡ true)
          ⊎ (header_iequals k (codes "content-length") ≡ false))
      × (contains_header_name (add_connection_tokens ctx.response_headers []) k ≡ false)
unfolding filtered_names
filtered_names_lem ctx method k h =
    let no_body = http_response_has_no_body method ctx.status_code in
    let tokens = add_connection_tokens ctx.response_headers [] in
    let (a, b) =
      contains_header_name-append (add_connection_tokens ctx.response_headers hop_by_hop_names)
        (if no_body then [] else codes "content-length" ∷ []) k h in
    let (c, d) = contains_header_name-append hop_by_hop_names tokens k (
      ap (λ names. contains_header_name names k)
        (sym (add_connection_tokens_lem ctx.response_headers hop_by_hop_names))
      ∙ a) in
    (
      sym (contains_header_name_sym hop_by_hop_names k ∙ is_hop_by_hop_header-names k) ∙ c,
      length_name no_body k b,
      d,
    )

content_length-Differs :
    (method : Bytes) (status : ℕ) (k : Bytes)
    → (http_response_has_no_body method status ≡ true)
      ⊎ (header_iequals k (codes "content-length") ≡ false)
    → HasNoBody method status ⊎ Differs k (codes "content-length")
content_length-Differs method status k (inl e) = inl (no_body method status e)
content_length-Differs method status k (inr e) =
    inr (header_iequals-Differs k (codes "content-length") e)

hops : (k : Bytes) → is_hop_by_hop_header k ≡ false → All (Differs k) hop_by_hop_names
hops k h = hop_by_hop_differ hop_by_hop_names k (is_hop_by_hop_header-names k ∙ h)

is_written-MayPass :
    (ctx : HttpContext) (method : Bytes) (proxy_response : Bool) (k v : Bytes)
    → is_written ctx method proxy_response (k, v) ≡ true
    → MayPass ctx method proxy_response (k, v)
unfolding is_written
is_written-MayPass ctx method true k v h =
    let (a, b, c) = filtered_names_lem ctx method k (ground arith) in
    let (d, e) = is_safe_header-bytes k v (ground arith) in
    (
      d,
      e,
      hops k a,
      content_length-Differs method ctx.status_code k b,
      inr (not_named ctx.response_headers k c),
    )
is_written-MayPass ctx method false k v h =
    let (d, e) = is_safe_header-bytes k v (ground arith) in
    (
      d,
      e,
      hops k (ground arith),
      inr (header_iequals-Differs k (codes "content-length") (ground arith)),
      inl refl,
    )

keep-All {ℓ κ} :
    {A : Type ℓ} (p : A → Bool) (P : A → Type κ)
    → ((a : A) → p a ≡ true → P a)
    → (xs : List A) → All P (keep p xs)
keep-All p P f [] = tt
keep-All p P f (x ∷ xs) = elim (Bool-cases (p x)) [
  | inl e ↦ rw (e, keep) (f x e, keep-All p P f xs)
  | inr e ↦ rw (e, keep) (keep-All p P f xs)
]

-- Every header of the answer that is written has no carriage return, line feed or zero byte, and no
-- colon in its name; its name, up to case, is none of those for one hop only; it is `Content-Length` only
-- if the answer has no body; and it is no token of a `Connection` header, if the answer is forwarded.
pub written_headers-MayPass :
    (ctx : HttpContext) (method : Bytes) (proxy_response : Bool)
    → All (MayPass ctx method proxy_response) (written_headers ctx method proxy_response)
unfolding written_headers
written_headers-MayPass ctx method proxy_response =
    keep-All (is_written ctx method proxy_response) (MayPass ctx method proxy_response)
      (λ h e. is_written-MayPass ctx method proxy_response h.0 h.1 e) ctx.response_headers
