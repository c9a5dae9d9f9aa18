-- ===== src/Security/RateLimit/Limits/Paths.antt =====
-- Which rule limits a path.
use asio_owen.Prelude.{
  ℕ, ◌≤◌, true, some, none, Bytes, starts_with, length, find_first, find_first-In, In, All, any,
  Option, false, refl, find_first-none, ◌≡◌, ◌⊎◌, inl, inr, sym, ◌∙◌, Option-cases,
}
use asio_owen.Security.Longest.{
  any-sort_longest, sort_longest, sort_longest-In, find_first-sort_longest,
}
use asio_owen.Security.RateLimit.{Doubles, find_key}
use asio_owen.Security.RateLimit.Limits.{RateLimitRule, Config, normalize_config, path_rule}

module _ (d : Doubles) (hash : Bytes → ℕ) where
  -- The rule of a path: its own, or else that of the longest prefix it has among those that are set.
  -- Without either there is none.
  abbrev pub IsRuleFor : Bytes → Config d hash → Option (Bytes × RateLimitRule d hash) → Type 0
  IsRuleFor path cfg (some (name, rule)) =
      ((name ≡ path) × (find_key path cfg.path_limits ≡ some rule))
      ⊎ ((find_key path cfg.path_limits ≡ none)
          × In (name, rule) cfg.path_prefix_limits
          × (starts_with name path ≡ true)
          × All (λ p. starts_with p.0 path ≡ true → length p.0 ≤ length name)
              cfg.path_prefix_limits)
  IsRuleFor path cfg none =
      (find_key path cfg.path_limits ≡ none)
      × (any (λ p. starts_with p.0 path) cfg.path_prefix_limits ≡ false)

  by_prefix :
      (path : Bytes) (cfg : Config d hash) (o : Option (Bytes × RateLimitRule d hash))
      → find_key path cfg.path_limits ≡ none
      → find_first
          (λ p. starts_with p.0 path)
          (sort_longest (λ p. length p.0) cfg.path_prefix_limits)
        ≡ o
      → IsRuleFor path cfg o
  by_prefix path cfg none e f = (
    e,
    sym (any-sort_longest (λ p. length p.0) (λ p. starts_with p.0 path) cfg.path_prefix_limits)
        ∙ find_first-none (λ p. starts_with p.0 path)
            (sort_longest (λ p. length p.0) cfg.path_prefix_limits) f,
  )
  by_prefix path cfg (some (name, rule)) e f =
      let p = λ (q : Bytes × RateLimitRule d hash). starts_with q.0 path in
      let (m, found) =
        find_first-In p (sort_longest (λ q. length q.0) cfg.path_prefix_limits) (name, rule) f in
      inr (
        e,
        sort_longest-In (λ q. length q.0) (name, rule) cfg.path_prefix_limits m,
        found,
        find_first-sort_longest (λ q. length q.0) p cfg.path_prefix_limits (name, rule) f,
      )

  -- In whatever order they were set, a path is limited by the rule that is set for it; where there is
  -- none, by that of the longest prefix it has among those that are set; and it has no limit only if
  -- there is no such prefix either.
  pub path_rule-longest :
      (path : Bytes) (cfg : Config d hash)
      → IsRuleFor path cfg (path_rule d hash path (normalize_config d hash cfg))
  unfolding path_rule normalize_config
  path_rule-longest path cfg = elim (Option-cases (find_key path cfg.path_limits)) [
    | inr (own, e) ↦ rw (IsRuleFor, e) (inl (refl, e))
    | inl e ↦
        rw (IsRuleFor, e)
          (by_prefix path cfg
            (find_first (λ p. starts_with p.0 path)
              (sort_longest (λ p. length p.0) cfg.path_prefix_limits))
            e refl)
  ]
