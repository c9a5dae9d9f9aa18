-- ===== src/Security/PathRules.antt =====
-- `src/security/path_blacklist.hpp` and `principal.hpp`: blocked prefixes and roles.
pub mod Boundary
use asio_owen.Prelude.{
  ℕ, ◌≤◌, Bool, true, false, not, ◌&&◌, ◌||◌, List, [], ◌∷◌, ◌++◌, ◌==◌, if◌then◌else◌, ◌≡◌, refl,
  sym, ap, ◌∙◌, arith, Option, some, none, Bytes, bytes_eq, starts_with, is_empty, back?, get_elem?,
  length, any, find_first, after_byte, keep, map,
}
use asio_owen.Security.Longest.{sort_longest}

-- An item of the section: a path, and the value behind it.
abbrev pub Rule : Type 0
Rule = Bytes × Bytes

pub record PathBlacklist : Type 0 where
  pub paths : List Bytes
  pub role_paths : List Rule

pub record BlockResult : Type 0 where
  pub blocked : Bool
  pub required_role : Bytes

abbrev pub is_byte : ℕ → Option ℕ → Bool
is_byte c none = false
is_byte c (some d) = d == c

-- Exact match, or a prefix that ends at a segment boundary of `path`.
unfoldable pub rule_matches : Bytes → Bytes → Bool
rule_matches path p =
    bytes_eq path p
    || starts_with p path
      && (is_byte b'/' (back? p)
          || length path == length p
          || is_byte b'/' (get_elem? path (length p)))

-- "admin" from "role:admin".
unfoldable pub extract_role_from_val : Bytes → Bytes
unfolding after_byte
extract_role_from_val role = elim (after_byte b':' role) [ none ↦ role | some r ↦ r ]

-- The loop of `reload`, before the lists are sorted.
unfoldable pub plain_paths : List Rule → List Bytes
plain_paths [] = []
plain_paths ((key, val) ∷ items) =
    let rest = plain_paths items in if not (is_empty key) && is_empty val then key ∷ rest else rest

unfoldable pub role_rules : List Rule → List Rule
role_rules [] = []
role_rules ((key, val) ∷ items) =
    let rest = role_rules items in
    if not (is_empty key) && not (is_empty val) then (key, val) ∷ rest else rest

abbrev pub rule_length : Rule → ℕ
rule_length (key, val) = length key

abbrev pub path_length : Bytes → ℕ
path_length key = length key

unfoldable pub reload : List Rule → PathBlacklist
unfolding plain_paths role_rules sort_longest
reload items = record {
  paths = sort_longest path_length (plain_paths items);
  role_paths = sort_longest rule_length (role_rules items);
}

abbrev pub fits : Bytes → Rule → Bool
fits path (key, val) = rule_matches path key

unfoldable pub check : PathBlacklist → Bytes → BlockResult
unfolding rule_matches extract_role_from_val
check b path =
    if any (rule_matches path) b.paths
    then record { blocked = true; required_role = [] }
    else record {
      blocked = false;
      required_role = elim (find_first (fits path) b.role_paths) [
        | none ↦ []
        | some (_, role) ↦ extract_role_from_val role
      ];
    }

pub record Principal : Type 0 where
  pub subject : Bytes
  pub username : Bytes
  pub roles : List Bytes

unfoldable pub has_role : Principal → Bytes → Bool
has_role principal role = any (λ item. bytes_eq item role) principal.roles
