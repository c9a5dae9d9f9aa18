-- ===== src/Tests/Security.antt =====
-- The parts of `src/security` on small inputs.
use asio_owen.Prelude.{
  true, false, List, [], ◌∷◌, Option, some, none, Bytes, codes, bytes_eq, has_byte, any, take,
  starts_with, refl, ◌≡◌, ◌↔◌, ◌⊎◌, All, In, lower, ok, arith,
}
use asio_owen.Security.Path.{normalize_path, percent_decode}
use asio_owen.Security.Path.Decode.{encode, percent_decode-encode}
use asio_owen.Security.Path.Normal.{IsClean, slash_path, normalize_path-IsClean}
use asio_owen.Security.PathRules
use asio_owen.Security.PathRules.{Rule, rule_matches, extract_role_from_val, rule_length}
use asio_owen.Security.PathRules.Boundary.{
  blocks, demands, NoLonger, blocked-reload, required_role-longest,
}
use asio_owen.Security.Address
use asio_owen.Security.Address.{
  AddressLib, v4, match_bytes, get_client_ip, is_trusted, forwarded_ips, normalize_ip_str,
}
use asio_owen.Security.Address.Prefix.{bits, match_bytes_iff}
use asio_owen.Security.Address.Client.{RightmostUntrusted, get_client_ip_forwarded}

-- `/A/./b%2F..`, without the encoded slash.
abbrev raw_path : Bytes
raw_path = codes "/A/./b/../c?x=1"

normalized : normalize_path false raw_path ≡ ok (codes "/a/c")
unfolding normalize_path has_byte
normalized = refl

normalize_path-IsClean_example :
    (segs : List Bytes) × All IsClean segs
    × (codes "/a/c" ≡ slash_path segs)
    × ((false ≡ true) ⊎ (lower (codes "/a/c") ≡ codes "/a/c"))
normalize_path-IsClean_example = normalize_path-IsClean false raw_path normalized

percent_decode-encode_example : percent_decode (encode (codes "/a b")) ≡ ok (codes "/a b")
percent_decode-encode_example =
    percent_decode-encode (codes "/a b")
      ((omega arith, refl), ((omega arith, refl), ((omega arith, refl), ((omega arith, refl), tt))))

abbrev pub open_items : List Bytes
open_items = codes "/public/" ∷ codes "/health" ∷ codes "auth" ∷ []

abbrev pub rules : List Rule
rules =
    (codes "/internal", [])
    ∷ (codes "/admin", codes "role:admin")
    ∷ (codes "/admin/root", codes "role:root")
    ∷ []

blocked-reload_example :
    (PathRules.check (PathRules.reload rules) (codes "/internal/x")).blocked
    ≡ any (blocks (codes "/internal/x")) rules
blocked-reload_example = blocked-reload rules (codes "/internal/x")

admin_not_blocked :
    (PathRules.check (PathRules.reload rules) (codes "/admin/root/x")).blocked ≡ false
unfolding PathRules.check PathRules.reload bytes_eq starts_with
admin_not_blocked = refl

required_role-longest_example :
    ((any (demands (codes "/admin/root/x")) rules ≡ false)
      × ((PathRules.check (PathRules.reload rules) (codes "/admin/root/x")).required_role ≡ []))
    ⊎ ((r : Rule) × In r rules
        × (demands (codes "/admin/root/x") r ≡ true)
        × ((PathRules.check (PathRules.reload rules) (codes "/admin/root/x")).required_role
            ≡ extract_role_from_val r.1)
        × All (NoLonger (codes "/admin/root/x") (rule_length r)) rules)
required_role-longest_example =
    required_role-longest rules (codes "/admin/root/x") admin_not_blocked

-- Addresses written as their four bytes.
abbrev pub parse_raw : Bytes → Option Address.Address
parse_raw (a ∷ b ∷ c ∷ d ∷ []) = some (v4 (a ∷ b ∷ c ∷ d ∷ []))
parse_raw _ = none

abbrev pub mapped : Bytes → Bytes
mapped a = 0 ∷ 0 ∷ 0 ∷ 0 ∷ 0 ∷ 0 ∷ 0 ∷ 0 ∷ 0 ∷ 0 ∷ 255 ∷ 255 ∷ a

abbrev pub lib : AddressLib
lib = record {
  make_address = parse_raw;
  v4_to_string = λ a. a;
  is_v4_mapped = λ _. false;
  to_mapped = mapped;
}

match_bytes_iff_example :
    (match_bytes 12 (10 ∷ 16 ∷ 0 ∷ 1 ∷ []) (10 ∷ 31 ∷ 0 ∷ 0 ∷ []) ≡ true)
    ↔ (take 12 (bits (10 ∷ 16 ∷ 0 ∷ 1 ∷ [])) ≡ take 12 (bits (10 ∷ 31 ∷ 0 ∷ 0 ∷ [])))
match_bytes_iff_example =
    match_bytes_iff 12 (10 ∷ 16 ∷ 0 ∷ 1 ∷ []) (10 ∷ 31 ∷ 0 ∷ 0 ∷ [])
      (omega arith, (omega arith, (omega arith, (omega arith, tt))))
      (omega arith, (omega arith, (omega arith, (omega arith, tt)))) refl (omega arith)

abbrev pub proxies : List Bytes
proxies = codes "prox" ∷ []

trusted_proxy : is_trusted lib proxies (codes "prox") ≡ true
unfolding Address.normalize_ip bytes_eq
trusted_proxy = refl

get_client_ip_forwarded_example :
    (All (λ p. is_trusted lib proxies p ≡ true) (forwarded_ips (codes "fake, real, prox"))
      × (get_client_ip lib (some (codes "prox")) (codes "fake, real, prox") proxies ≡ codes "prox"))
    ⊎ RightmostUntrusted lib proxies
        (forwarded_ips (codes "fake, real, prox"))
        (get_client_ip lib (some (codes "prox")) (codes "fake, real, prox") proxies)
get_client_ip_forwarded_example =
    get_client_ip_forwarded lib (codes "prox") (codes "fake, real, prox") proxies trusted_proxy refl
