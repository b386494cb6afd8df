-- ===== src/Quote.antt =====
-- The vocabulary of the quote manager (include/mm/quote).
pub mod Actions
pub mod Working
pub mod State
pub mod Manager
pub mod Slot
pub mod Evaluate
pub mod Base
pub mod Ownership
pub mod Resolve
pub mod Proper
pub mod Generations
mod Tests
