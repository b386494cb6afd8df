-- ===== src/Oms.antt =====
-- Order management: the lifecycle of an order.
pub mod Lifecycle
pub mod Paths
mod Tests
