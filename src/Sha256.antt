-- ===== src/Sha256.antt =====
-- The portable SHA-256 provider: components/typx_protocol/src/typx_sha256_portable.c and
-- include/typx_sha256.h.
-- The context is a record that is passed through; neither it nor the outputs are NULL. The bytes
-- of `update` are a list, so NULL bytes with a length have no case.
pub mod Block
pub mod Provider
pub mod Streaming
pub mod Padding
pub mod Digest
pub mod Refines
mod Tests
