-- ===== src/Redis.antt =====
-- redis/: the commands, the typed operations on a room, and the lock.
pub mod Acl
pub mod Helper
pub mod Decimal
pub mod Locker
pub mod Quiet
pub mod Scope
pub mod Exclusion
pub mod Handoff
pub mod Takeover
pub mod Handover
pub mod Contention
pub mod Store
pub mod Rows
