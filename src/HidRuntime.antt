-- ===== src/HidRuntime.antt =====
-- The keyboard's runtime: components/typx_hid_runtime/src/typx_hid_runtime.c and
-- include/typx_hid_runtime.h.
-- The flags `connected`, `running` and `stop_requested` are volatile: other tasks change them while
-- a callback runs, so a callback acts on the flags and its context together. The model keeps a log
-- of the callbacks. A character is the byte of its code; a missing callback is `none`; the pointer
-- to the runtime is not NULL.
pub mod Defs
pub mod Keys
pub mod Log
pub mod Typing
pub mod Ended
pub mod Console
pub mod Accepts
pub mod RoundTrip
mod Tests
