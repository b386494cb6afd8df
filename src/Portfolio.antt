-- ===== src/Portfolio.antt =====
-- Accounting: include/mm/portfolio and src/portfolio.
pub mod Types
pub mod SeenTrades
pub mod Account
pub mod Average
pub mod Fill
pub mod Effect
pub mod Model
pub mod Exact
pub mod Accountant
mod Tests
