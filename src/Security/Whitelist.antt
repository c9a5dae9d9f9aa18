-- ===== src/Security/Whitelist.antt =====
-- `src/security/auth_whitelist.hpp`: which paths and services skip the JWT check.
-- The `unordered_set`s are lists read by membership only.
use asio_owen.Prelude.{
  Bool, false, not, ◌&&◌, ◌||◌, List, [], ◌∷◌, ◌++◌, ◌==◌, if◌then◌else◌, ◌≡◌, refl, ◌∙◌, arith,
  some, none, Bytes, bytes_eq, bytes_eq_iff, starts_with, codes, is_empty, back?, any, any-append,
  ◌≢◌,
}

pub record AuthWhitelist : Type 0 where
  pub exact_paths : List Bytes
  pub prefix_paths : List Bytes
  pub services : List Bytes

unfoldable pub ends_with_slash : Bytes → Bool
ends_with_slash s = elim (back? s) [ none ↦ false | some c ↦ c == b'/' ]

-- One round of the loop of `reload`.
unfoldable pub add_item : AuthWhitelist → Bytes → AuthWhitelist
unfolding ends_with_slash
add_item w [] = w
add_item w (c ∷ rest) =
    if c == b'/'
    then (if not (is_empty rest) && ends_with_slash (c ∷ rest)
        then record w { prefix_paths = w.prefix_paths ++ (c ∷ rest) ∷ [] }
        else record w { exact_paths = (c ∷ rest) ∷ w.exact_paths })
    else record w { services = (c ∷ rest) ∷ w.services }

unfoldable pub add_items : AuthWhitelist → List Bytes → AuthWhitelist
unfolding add_item
add_items w [] = w
add_items w (item ∷ items) = add_items (add_item w item) items

unfoldable pub reload : List Bytes → AuthWhitelist
unfolding add_items
reload = add_items (record { exact_paths = []; prefix_paths = []; services = [] })

unfoldable pub is_path_whitelisted : AuthWhitelist → Bytes → Bool
is_path_whitelisted w path =
    any (bytes_eq path) w.exact_paths || any (λ p. starts_with p path) w.prefix_paths

unfoldable pub is_service_whitelisted : AuthWhitelist → Bytes → Bool
is_service_whitelisted w service = any (bytes_eq service) w.services

unfoldable pub is_whitelisted : AuthWhitelist → Bytes → Bytes → Bool
is_whitelisted w path service =
    any (bytes_eq path) w.exact_paths
    || any (λ p. starts_with p path) w.prefix_paths
    || not (is_empty service) && any (bytes_eq service) w.services

-- What one configured item allows, read on its own.
abbrev pub allows : Bytes → Bytes → Bytes → Bool
allows path service [] = false
allows path service (c ∷ rest) =
    if c == b'/'
    then (if not (is_empty rest) && ends_with_slash (c ∷ rest)
        then starts_with (c ∷ rest) path
        else bytes_eq path (c ∷ rest))
    else not (is_empty service) && bytes_eq service (c ∷ rest)

is_whitelisted-add_item :
    (w : AuthWhitelist) (path service item : Bytes)
    → is_whitelisted (add_item w item) path service
      ≡ (allows path service item || is_whitelisted w path service)
unfolding is_whitelisted add_item
is_whitelisted-add_item w path service [] = refl
is_whitelisted-add_item w path service (c ∷ rest) =
    ground (arith, any-append (λ p. starts_with p path) w.prefix_paths ((c ∷ rest) ∷ []))

is_whitelisted-add_items :
    (w : AuthWhitelist) (path service : Bytes) (items : List Bytes)
    → is_whitelisted (add_items w items) path service
      ≡ (any (allows path service) items || is_whitelisted w path service)
unfolding add_items
is_whitelisted-add_items w path service [] = refl
is_whitelisted-add_items w path service (item ∷ items) =
    is_whitelisted-add_items (add_item w item) path service items
    ∙ ground (arith, is_whitelisted-add_item w path service item)

-- After a reload a request is whitelisted exactly when one of the items allows it: a path that
-- ends in a slash by prefix, any other path by equality, and a service name by equality.
is_whitelisted-reload :
    (items : List Bytes) (path service : Bytes)
    → is_whitelisted (reload items) path service ≡ any (allows path service) items
unfolding reload
is_whitelisted-reload items path service =
    is_whitelisted-add_items (record { exact_paths = []; prefix_paths = []; services = [] }) path
      service items
    ∙ unfold is_whitelisted in ground arith

-- The bare root is no prefix of everything: it opens the root path alone.
pub reload_bare_root :
    (items : List Bytes) (path service : Bytes)
    → path ≢ codes "/"
    → is_whitelisted (reload (codes "/" ∷ items)) path service
      ≡ is_whitelisted (reload items) path service
reload_bare_root items path service h =
    is_whitelisted-reload (codes "/" ∷ items) path service
    ∙ ground (arith, bytes_eq_iff path (codes "/"), is_whitelisted-reload items path service)

-- The combined test is the two single tests, the service counting only if it has a name.
pub is_whitelisted_split :
    (w : AuthWhitelist) (path service : Bytes)
    → is_whitelisted w path service
      ≡ (is_path_whitelisted w path || not (is_empty service) && is_service_whitelisted w service)
unfolding is_whitelisted is_path_whitelisted is_service_whitelisted
is_whitelisted_split w path service = ground arith
