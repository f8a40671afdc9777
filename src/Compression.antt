-- ===== src/Compression.antt =====
-- packages/core/src/compression: which representation of each source file fits a token budget.
pub mod Budget
mod Tests
