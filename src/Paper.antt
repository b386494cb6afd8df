-- ===== src/Paper.antt =====
-- The simulated venue (include/mm/exchange/paper): its order record and its matcher.
pub mod Matcher
pub mod Matching
pub mod Price
mod Tests
