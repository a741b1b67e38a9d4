-- ===== src/StateMachine.antt =====
-- The device state machine: components/typx_executor/src/typx_state_machine.c and its header.
-- A pointer is the object that it points to, so the NULL test on `machine` has no case here; the
-- callback of `finish`, which the code tests too, is an `Option`. `release_all` acts on a context
-- of its own, which is passed through.
pub mod Defs
pub mod Gates
pub mod Graph
pub mod Traces
mod Tests
