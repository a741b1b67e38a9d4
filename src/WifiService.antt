-- ===== src/WifiService.antt =====
-- The service over Wi-Fi: targets/esp32_cam/main/typx_wifi_service.c over the job of Upload and the
-- keyboard of BleHid.
-- The HTTP server, cJSON, the partition and FreeRTOS are parameters. A text is a list of bytes
-- without its NUL. The mutex is left out: a handler is one transition, except where it answers.
pub mod Hex
pub mod RoundTrip
pub mod Defs
pub mod Handlers
pub mod Chunks
pub mod Network
pub mod Modes
pub mod Sound
pub mod Managed
pub mod Starting
pub mod Received
mod Tests
