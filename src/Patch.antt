-- ===== src/Patch.antt =====
-- packages/core/src/patch: the review of an agent's changes, from the comparison of two snapshots and
-- the hunks of a text to the transaction that applies a patch to the source tree, and its undoing.
pub mod Types
pub mod Paths
pub mod Tree
pub mod Records
pub mod Apply
pub mod Transaction
pub mod Undo
pub mod Discard
pub mod Hunks
pub mod Diff
mod Tests
