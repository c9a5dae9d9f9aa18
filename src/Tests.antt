-- ===== src/Tests.antt =====
-- The theorems at concrete inputs.
mod Chain
mod Security
mod Http
mod Body
mod Config
mod Counters
mod RateLimit
mod Limits
mod Pool
mod Admin
