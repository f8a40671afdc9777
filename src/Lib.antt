-- ===== src/Lib.antt =====
-- Verification library for Yuhi, which prepares a workspace for coding agents: a policy decides what
-- may leave the computer, heavy work is deferred to a background queue, source files are fitted into
-- a token budget, what an agent asks for is planned by rules, isolated sessions of the Claude GUI are
-- run behind a local gateway, and the changes of an agent go back as reviewed patches.
--
-- The parts and their files:
--   Policy (packages/policy, packages/shared): Policy/Action and Policy/Capability are actions.ts and
--     file-capabilities.ts; Policy/Match is match.ts; Policy/Path holds the regular expressions of
--     resolve.ts; Policy/Verdict, Policy/Gate and Policy/Resolve are resolve.ts itself. The loop over
--     a file assigns five variables: they are a `Verdict`, and each block of assignments is a function
--     on it, composed in the order of the source by `routed`, `gate` and `explain_file`. picomatch
--     and node's `path.extname` are parameters. Policy/Resolve/* prove what the decisions guarantee.
--   Background (packages/core/src/background): Types is types.ts, Store is state-store.ts, Queue is
--     queue.ts, Normalize is normalizeRecord of state-store.ts with the JSON value of a record, Cancel
--     is cancel-store.ts, and Worker is worker.ts. The store is the two maps and the directory of item
--     files; the queue and the worker change records by `update` alone. In Worker, what the source does between two awaits is one step; Worker/Steps is the relation of all
--     interleavings of the loop, of the tasks in flight and of other users of the store.
--   Compression (packages/core/src/compression/budget.ts): Budget is the selection under a token
--     budget. The loop of the source changes shared objects, which are told apart by slots.
--   Native (packages/context-gateway/src/native): State is types.ts, Lifecycle is lifecycle.ts, Lock
--     is session-lock.ts, Settings and SettingsFile are settings-merge.ts, Cleanup is cleanup.ts and
--     Recovery is recovery.ts, which discovers sessions by their locks and finishes the stale ones by
--     the steps of cleanup.
--   Patch (packages/core/src/patch): Hunks is hunks.ts and Diff is diff.ts. The other files are
--     apply.ts: Types is the patch of types.ts, Paths are the safe paths, Tree the files below a root and the atomic write,
--     Records what is answered and kept, Apply the steps of one change (validateChange, backupChange,
--     mutate, restore), Transaction is applyPatchAtomically and Undo is undoPatch; Discard lists
--     the patches that are kept and resets a prepared tree. A tree is a function from places to
--     entries, which hold contents: the modes of files and the temporary file of an atomic write are
--     left out. `ApplyFaults` and `UndoFaults` say where a read or a write of the source, of the
--     prepared tree or of the private root throws; the theorems hold for all of them. Transaction/*
--     and Undo/* prove what an answer says of the source tree.
--   Planner (packages/context-runtime/src/planner): Types is types.ts, Rules is rules.ts and Cache is
--     cache.ts.
--   Prelude and Text hold what the parts share: Boolean tests, lists, association lists for `Map`,
--     JavaScript's stable sort, and texts as code points.
--
-- Numbers are natural numbers; the source's token counts, priorities and instants are never negative.
-- No function needs fuel: every loop of the modelled code walks a list. The worker's outer loop is the
-- relation of its steps, and its termination is not stated.
--
-- In Patch, no other program changes the trees while an operation runs, the directories that are made
-- for a file are no entries of the tree, the policy on the contents of a change (validator.ts), Unicode
-- case folding and the digest are parameters, and the hooks of the tests are left out.
--
-- Not modelled: the JSON text of files, the validation of the JSON of locks and of session records,
-- failing writes outside Patch, SHA-256, the clock and the process table (parameters), the processors, the publisher (its answers are given to
-- the worker's steps), and the parts of the repository that only read files, start processes or draw
-- user interfaces.
pub mod Prelude
pub mod Text
pub mod Policy
pub mod Background
pub mod Compression
pub mod Native
pub mod Patch
pub mod Planner
