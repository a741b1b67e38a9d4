-- ===== src/Executor.antt =====
-- The execution of a verified schedule: components/typx_executor/src/typx_executor.c and
-- include/typx_executor.h.
-- The callbacks act on a context, which is passed through; beside it the model keeps a log of the
-- calls and their answers, newest first, which the code does not have. An `io` with a missing
-- callback is `none`.
pub mod Defs
pub mod Log
pub mod Ends
pub mod Keys
pub mod Reads
mod Tests
