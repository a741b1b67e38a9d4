-- ===== src/Identity.antt =====
-- The identity of the keyboard: components/typx_ble_identity/src/typx_ble_identity.c,
-- include/typx_ble_identity.h and include/keyboard_identity_defaults.h.
-- A character array is the list of all its bytes. A pointer is the object that it points to, or an
-- `Option` of it where NULL is meant; the state and the outputs are never NULL here. `snprintf` is
-- written out for the formats that occur.
pub mod Types
pub mod Text
pub mod Config
pub mod Battery
pub mod Codes
pub mod Loading
pub mod Valid
pub mod Updating
mod Tests
