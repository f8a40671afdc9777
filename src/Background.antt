-- ===== src/Background.antt =====
-- packages/core/src/background: the queue of deferred preparation work, which runs after the
-- workspace is ready, its durable store, its cancellation file, and the bounded worker.
mod Tests
pub mod Types
pub mod Normalize
pub mod Store
pub mod Queue
pub mod Cancel
pub mod Worker
