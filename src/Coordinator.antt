-- ===== src/Coordinator.antt =====
-- extensions/ypi/internal/tree-coordinator.ts, the root-owned authority of one recursion tree.
pub mod Protocol
pub mod State
pub mod Slots
pub mod Grants
pub mod Calls
pub mod Handler
pub mod Generation
pub mod Run
pub mod Bound
pub mod Fairness
pub mod Offers
pub mod Client
pub mod Counter
pub mod Root
mod Tests
