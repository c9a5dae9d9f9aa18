-- ===== src/Security.antt =====
-- The security chain, `src/security`: one child for each header of that folder.
pub mod Longest
pub mod Path
pub mod Whitelist
pub mod PathRules
pub mod Address
pub mod Jwt
pub mod Chain
pub mod RateLimit
