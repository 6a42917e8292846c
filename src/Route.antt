-- ===== src/Route.antt =====
-- route/: the table of address ranges that gives a client its provider and area.
pub mod Enums
pub mod Table
pub mod Text
pub mod Loader
pub mod Query
