-- ===== src/BleHid.antt =====
-- The keyboard over Bluetooth: targets/esp32_cam/main/typx_ble_hid.c over the runtime of HidRuntime,
-- the state of Safety and the executor of Executor.
-- The Bluetooth stack, FreeRTOS and the identity service are the parameter `Platform`. A delay runs
-- the other tasks, so it acts on all of the state. Critical sections are left out: a step of a task
-- between two delays is one transition. Logging has no effect here.
pub mod Defs
pub mod Run
pub mod Waiting
pub mod Sent
pub mod Stopping
pub mod Ended
pub mod Release
pub mod Confirmed
pub mod Events
pub mod Linked
pub mod Sample
mod Tests
