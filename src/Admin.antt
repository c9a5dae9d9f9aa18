-- ===== src/Admin.antt =====
-- The administration of configurations: what its requests are read as.
pub mod Json
pub mod Values
pub mod Requests
pub mod Versions
pub mod Settled
pub mod Members
pub mod Valid
pub mod Changes
pub mod Objects
pub mod Accepted
pub mod RoundTrip
