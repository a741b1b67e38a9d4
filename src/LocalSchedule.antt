-- ===== src/LocalSchedule.antt =====
-- A schedule in memory, verified and run:
-- components/typx_local_schedule/src/typx_local_schedule.c and include/typx_local_schedule.h.
-- The pointers to the blob, the limits and the provider are not NULL; `data` and `run_verified` are
-- `none` for NULL. The runner acts on its context.
pub mod Defs
pub mod Guarded
mod Tests
