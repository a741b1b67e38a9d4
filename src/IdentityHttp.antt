-- ===== src/IdentityHttp.antt =====
-- The requests for the identity: targets/esp32_cam/main/typx_identity_http.c.
-- The reading of JSON (cJSON) and the server are parameters; the JSON that is sent is a record of its
-- fields. Building it takes the memory it needs.
pub mod Json
pub mod Handlers
pub mod Parsed
pub mod Shown
pub mod Taken
pub mod Restarting
mod Tests
