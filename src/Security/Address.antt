-- ===== src/Security/Address.antt =====
-- `src/security/real_ip.hpp`, `cidr.hpp` and `ip_blacklist.hpp`. The address type and its
-- operations are those of the vendored asio, taken as a parameter.
pub mod Prefix
pub mod Client
use Prim.Native.Nat.{bit_and}
use mathlib.Core.List.{reverse}
use asio_owen.Prelude.{
  ℕ, zero, suc, ◌+◌, ◌-◌, ◌*◌, ◌/◌, ◌%◌, ◌^◌, ltb, Bool, true, false, not, ◌&&◌, ◌||◌, List, [],
  ◌∷◌, ◌++◌, ◌==◌, if◌then◌else◌, Option, some, none, Bytes, bytes_eq, has_byte, before_byte,
  after_byte, is_empty, get_elem?, drop, length, any, keep, map, split_on, split_from, trim, Parsed,
  stoi, stoi_from,
}

-- An address, as its bytes in network order.
pub data Address : Type 0 where
  v4 : Bytes → Address
  v6 : Bytes → Address

-- What the code calls of asio.
pub record AddressLib : Type 0 where
  -- `make_address(s, ec)`, `none` if `ec` is set.
  pub make_address : Bytes → Option Address
  -- `address_v4::to_string()`.
  pub v4_to_string : Bytes → Bytes
  -- `address_v6::is_v4_mapped()`.
  pub is_v4_mapped : Bytes → Bool
  -- `make_address_v6(v4_mapped, a)`.
  pub to_mapped : Bytes → Bytes

-- `addr` is `none` where `parse_ok` is false.
pub record NormalizedIp : Type 0 where
  pub str : Bytes
  pub addr : Option Address

pub record ParsedCidr : Type 0 where
  pub network : Bytes
  pub prefix_len : ℕ

-- The loop over the whole bytes of a prefix. (Past the end of an address the source is undefined.)
unfoldable pub same_bytes : ℕ → Bytes → Bytes → Bool
same_bytes zero a b = true
same_bytes (suc n) (x ∷ a) (y ∷ b) = x == y && same_bytes n a b
same_bytes (suc n) _ _ = false

-- `static_cast<uint8_t>(0xFF << (8 - remaining))`.
unfoldable pub prefix_mask : ℕ → ℕ
prefix_mask remaining = 0xff * 2 ^ (8 - remaining) % 256

unfoldable pub same_masked : ℕ → Option ℕ → Option ℕ → Bool
unfolding prefix_mask
same_masked remaining (some x) (some y) =
    bit_and x (prefix_mask remaining) == bit_and y (prefix_mask remaining)
same_masked remaining _ _ = false

-- The comparison of `match_cidr`, on the two byte arrays.
unfoldable pub match_bytes : ℕ → Bytes → Bytes → Bool
unfolding same_bytes same_masked
match_bytes prefix_len addr network =
    same_bytes (prefix_len / 8) addr network
    && (prefix_len % 8 == 0
        || same_masked (prefix_len % 8) (get_elem? addr (prefix_len / 8))
            (get_elem? network (prefix_len / 8)))

-- Strip port or brackets: `[::1]:8080`, `1.2.3.4:8080`, `::1`, `1.2.3.4`.
unfoldable pub strip_port : Bytes → Bytes
unfolding before_byte after_byte has_byte
strip_port s = elim (after_byte b':' s) [
  | none ↦ s
  | some rest ↦ if has_byte b':' rest then s else before_byte b':' s
]

unfoldable pub strip_ip_port : Bytes → Bytes
unfolding strip_port
strip_ip_port [] = strip_port []
strip_ip_port (c ∷ s) =
    if ltb 2 (length (c ∷ s)) && c == b'[' && has_byte b']' (c ∷ s)
    then before_byte b']' s
    else strip_port (c ∷ s)

-- The comma-separated parts of the header, trimmed, without the empty ones.
unfoldable pub forwarded_ips : Bytes → List Bytes
unfolding split_from trim strip_ip_port
forwarded_ips xff_header =
    map strip_ip_port (keep (λ part. not (is_empty part)) (map trim (split_on b',' xff_header)))

pub record IpBlacklist : Type 0 where
  pub exact : List Bytes
  pub cidrs : List ParsedCidr

module _ (lib : AddressLib) where
  unfoldable pub normalize_ip : Bytes → NormalizedIp
  normalize_ip ip_str = elim (lib.make_address ip_str) [
    | none ↦ record { str = ip_str; addr = none }
    | some a ↦ elim a [
      | v4 bytes ↦ record { str = ip_str; addr = some (v4 bytes) }
      | v6 bytes ↦
          if lib.is_v4_mapped bytes
          then record { str = lib.v4_to_string (drop 12 bytes); addr = some (v4 (drop 12 bytes)) }
          else record { str = ip_str; addr = some (v6 bytes) }
    ]
  ]

  abbrev pub normalize_ip_str : Bytes → Bytes
  normalize_ip_str ip_str = (normalize_ip ip_str).str

  unfoldable pub make_rule : Address → Parsed → Option ParsedCidr
  make_rule (v4 bytes) n =
      if n.negative && not (n.magnitude == 0) || ltb 32 n.magnitude
      then none
      else some (record { network = lib.to_mapped bytes; prefix_len = n.magnitude + 96 })
  make_rule (v6 bytes) n =
      if n.negative && not (n.magnitude == 0) || ltb 128 n.magnitude
      then none
      else some (record { network = bytes; prefix_len = n.magnitude })

  unfoldable pub parse_cidr_rule : Bytes → Option ParsedCidr
  unfolding make_rule after_byte before_byte stoi_from
  parse_cidr_rule cidr = elim (after_byte b'/' cidr) [
    | none ↦ none
    | some prefix_part ↦ elim (stoi prefix_part) [
      | none ↦ none
      | some n ↦ elim (lib.make_address (before_byte b'/' cidr)) [
        | none ↦ none
        | some a ↦ make_rule a n
      ]
    ]
  ]

  unfoldable pub as_v6 : Address → Bytes
  as_v6 (v4 bytes) = lib.to_mapped bytes
  as_v6 (v6 bytes) = bytes

  unfoldable pub match_cidr : Bytes → ParsedCidr → Bool
  unfolding normalize_ip as_v6 match_bytes
  match_cidr ip rule = elim (normalize_ip ip).addr [
    | none ↦ false
    | some a ↦ match_bytes rule.prefix_len (as_v6 a) rule.network
  ]

module _ (lib : AddressLib) where
  -- The loop of `IpBlacklist::reload`.
  unfoldable pub exact_items : List Bytes → List Bytes
  unfolding has_byte normalize_ip
  exact_items [] = []
  exact_items (item ∷ items) =
      let rest = exact_items items in
      if has_byte b'/' item then rest else normalize_ip_str lib item ∷ rest

  unfoldable pub cidr_items : List Bytes → List ParsedCidr
  unfolding has_byte parse_cidr_rule
  cidr_items [] = []
  cidr_items (item ∷ items) =
      let rest = cidr_items items in
      if has_byte b'/' item
      then (elim (parse_cidr_rule lib item) [ none ↦ rest | some rule ↦ rule ∷ rest ])
      else rest

  unfoldable pub reload : List Bytes → IpBlacklist
  unfolding exact_items cidr_items
  reload items = record { exact = exact_items items; cidrs = cidr_items items }

  unfoldable pub is_blocked : IpBlacklist → Bytes → Bool
  unfolding normalize_ip match_cidr
  is_blocked b ip =
      let normalized = normalize_ip_str lib ip in
      any (bytes_eq normalized) b.exact || any (match_cidr lib normalized) b.cidrs

  abbrev pub is_trusted : List Bytes → Bytes → Bool
  is_trusted trusted_proxies ip = any (bytes_eq (normalize_ip_str lib ip)) trusted_proxies

  -- The scan from the right: the first address that is no trusted proxy.
  unfoldable pub first_untrusted : List Bytes → List Bytes → Option Bytes
  first_untrusted trusted_proxies [] = none
  first_untrusted trusted_proxies (ip ∷ ips) =
      let rest = first_untrusted trusted_proxies ips in
      if is_trusted trusted_proxies ip then rest else some ip

  -- `direct` is the peer's address, `none` where asking for it throws.
  unfoldable pub get_client_ip : Option Bytes → Bytes → List Bytes → Bytes
  unfolding first_untrusted forwarded_ips
  get_client_ip none xff_header trusted_proxies = []
  get_client_ip (some direct_ip) xff_header trusted_proxies =
      if not (is_trusted trusted_proxies direct_ip) || is_empty xff_header
      then direct_ip
      else elim (first_untrusted trusted_proxies (reverse (forwarded_ips xff_header))) [
        | none ↦ direct_ip
        | some ip ↦ ip
      ]
