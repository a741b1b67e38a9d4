-- ===== src/IdentityService.antt =====
-- The service that keeps the identity: targets/esp32_cam/main/typx_identity_service.c.
-- The storage (NVS), the chip and the HID stack are a `Platform` over a world of its own. The mutex
-- makes every call one step; waiting for it forever always succeeds. Logging and the closing of
-- handles are left out. Pointers are never NULL but the HID device and the description.
pub mod Defs
pub mod Calls
pub mod Writes
pub mod Texts
pub mod Copied
pub mod Loaded
pub mod Survives
pub mod Restarted
pub mod Boards
pub mod Sound
pub mod Erased
pub mod Memory
mod Tests
