-- ===== src/Protocol.antt =====
-- The schedule format and its verification: components/typx_protocol/src/typx_protocol.c and
-- include/typx_protocol.h.
-- A pointer is the object that it points to, so the NULL tests on `reader`, `limits` and
-- `verified_schedule` have no case; callbacks, which the code tests too, are `Option`s, and a NULL
-- SHA-256 provider is one without callbacks. A reader's bytes do not change while it is used, so
-- `read_at` is a function of the offset and the length; it may fail at any of them.
pub mod Types
pub mod Bytes
pub mod Record
pub mod Payload
pub mod Validate
pub mod Verify
pub mod Decoding
pub mod Schedule
pub mod Codes
pub mod Hashing
pub mod Digests
pub mod Verified
pub mod Reading
pub mod Overflow
pub mod Sample
mod Tests
