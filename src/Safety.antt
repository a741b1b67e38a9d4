-- ===== src/Safety.antt =====
-- The release of all keys after a reconnect, and the marker of an interrupted run:
-- components/typx_execution_safety/src/typx_execution_safety.c and its header.
-- A pointer is the object that it points to, so the NULL test on `safety` has no case here; the
-- marker and its two callbacks, which the code tests too, are `Option`s. The callbacks act on a
-- context of their own, the marker's storage, which is passed through.
pub mod Defs
pub mod Invariant
pub mod Ready
mod Tests
