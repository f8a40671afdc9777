-- ===== src/Planner.antt =====
-- packages/context-runtime/src/planner: how a delivery is planned, by rules that are tried in order, and
-- the cache of what was generated.
pub mod Types
pub mod Rules
pub mod Cache
mod Tests
