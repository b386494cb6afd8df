-- ===== src/Risk.antt =====
-- The risk engine (include/mm/risk and src/risk).
pub mod Types
pub mod Limits
pub mod Exposure
pub mod RateLimiter
pub mod Decision
pub mod Checks
pub mod Engine
pub mod Sizing
pub mod Bounds
pub mod Outcomes
pub mod Safety
pub mod Tokens
pub mod Histories
pub mod Armed
pub mod Tally
pub mod Search
pub mod Unavailable
mod Tests
mod LedgerTests
