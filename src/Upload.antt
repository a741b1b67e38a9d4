-- ===== src/Upload.antt =====
-- The upload of a schedule over Wi-Fi: components/typx_wifi_upload/src/typx_wifi_upload.c and
-- include/typx_wifi_upload.h.
-- A pointer is the object that it points to, so the NULL tests on the upload, the session and the
-- data have no case; a session's `upload` pointer is the upload that is passed beside it. The
-- storage acts on a context, the flash, which is passed through; reading does not change it. A
-- storage with a missing callback is `none`: `begin` refuses it, so the other operations, which
-- call it in the state RECEIVING only, never meet it; there it answers false.
pub mod Types
pub mod Crc
pub mod Job
pub mod Chunk
pub mod Finalize
pub mod Gates
pub mod Lengths
pub mod Ledger
pub mod Ready
mod Tests
