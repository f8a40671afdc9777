-- ===== src/Policy.antt =====
-- packages/policy and the parts of packages/shared that it stands on: the actions, the registry of
-- file capabilities, the rules of a policy, and the resolution of one decision for each file.
mod Tests
pub mod Action
pub mod Capability
pub mod Path
pub mod Match
pub mod Verdict
pub mod Gate
pub mod Resolve
