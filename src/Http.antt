-- ===== src/Http.antt =====
-- The HTTP layer, `src/http`: one child for each part of it.
pub mod Numbers
pub mod Headers
pub mod Context
pub mod Cors
pub mod Response
pub mod Json
pub mod JsonKeys
pub mod Body
