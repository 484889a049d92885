-- ===== src/ApiKeys.antt =====
-- app/modules/api_keys: the limits of an API key, and the reservations of usage against them.
pub mod Types
pub mod Windows
pub mod Repository
pub mod Budget
pub mod Service
pub mod Recording
pub mod Retry
pub mod Stale
mod Tests
