-- ===== src/Lib.antt =====
-- Verification library of the TYPXEN firmware, an ESP32-CAM that receives a schedule of key presses
-- over Wi-Fi, verifies it and types it as a Bluetooth keyboard.
--
-- The parts, with the files that model them (paths from the repository's root):
-- - Protocol: components/typx_protocol/src/typx_protocol.c. A schedule is a header of 96 bytes and
--   records of 32 bytes behind a reader. `verify` checks the header, the SHA-256 of the payload and
--   every record, and hands out a token with which `read_record` may read. Types and Bytes hold the
--   data and the little-endian reads; Record decodes a record; Payload is the hash of the payload;
--   Validate is the pass over the records; Verify is `typx_protocol_v1_verify`. The other modules of
--   Protocol are the proofs; Schedule and Verified hold the independent description.
-- - Executor: components/typx_executor/src/typx_executor.c. `run` reads the records of a verified
--   schedule and calls the callbacks of its platform; the model keeps a log of the calls.
-- - StateMachine: components/typx_executor/src/typx_state_machine.c, the states of the device.
-- - Safety: components/typx_execution_safety/src/typx_execution_safety.c, the safe release of the keys
--   after a connection, with its marker in non-volatile storage.
-- - Upload: components/typx_wifi_upload/src/typx_wifi_upload.c. A job is begun, received in chunks
--   into a storage, finalized with `verify` on a reader of that storage, and started, stopped and
--   ended. Types, Crc, Job, Chunk and Finalize are the code; Gates, Lengths, Ledger and Ready the
--   proofs.
-- - LocalSchedule: components/typx_local_schedule/src/typx_local_schedule.c, which verifies a schedule
--   in memory and gives it to a runner.
-- - Identity: components/typx_ble_identity/src/typx_ble_identity.c, the names of the keyboard and its
--   simulated battery. Text, Config and Battery are the code; Loading, Valid and Updating the proofs.
-- - IdentityService: targets/esp32_cam/main/typx_identity_service.c, which keeps the identity in
--   non-volatile storage. Defs and Calls are the code, over a platform with its own world; Memory is
--   such a platform. Writes states what the storage promises and what a row of writes leaves; Texts,
--   Copied, Loaded, Survives, Restarted, Erased, Boards and Sound are the proofs.
-- - IdentityHttp: targets/esp32_cam/main/typx_identity_http.c, the requests for the identity over
--   IdentityService and BleHid. Json and Handlers are the code; Parsed, Shown, Taken and Restarting the
--   proofs.
-- - Station: components/typx_wifi_station/src/typx_wifi_station.c, the credentials of the network.
-- - Sha256: components/typx_protocol/src/typx_sha256_portable.c, a provider for `verify`. Block is the
--   compression, Provider the callbacks; Digest describes the padding and the blocks of a whole
--   message; Streaming, Padding and Refines are the proofs.
-- - Embedded: targets/esp32_cam/main/typx_embedded_schedules.c, which runs a linked schedule through
--   LocalSchedule and BleHid, and components/typx_protocol/src/typx_sha256_mbedtls.c. Embedded is the
--   code, with the promises of mbedTLS as the record IsMbedtls; Embedded/Ends the proofs;
--   Embedded/Sample a schedule with its digest, and a library that meets the promises.
-- - HidRuntime: components/typx_hid_runtime/src/typx_hid_runtime.c, the reports of the keyboard, the
--   two tests that type, and the parsers of the console. Defs, Keys and Console are the code; Log,
--   Typing, Ended, Accepts and RoundTrip the proofs.
-- - BleHid: targets/esp32_cam/main/typx_ble_hid.c, the keyboard over Bluetooth. It gives HidRuntime
--   and Executor their callbacks, keeps the state of Safety in step with the connection, and runs the
--   task that releases the keys. Defs, Run, Release and Events are the code; Sent, Stopping, Ended,
--   Waiting, Confirmed and Linked the proofs.
-- - WifiService: targets/esp32_cam/main/typx_wifi_service.c, the handlers of HTTP requests over Upload
--   and BleHid, and the modes of Wi-Fi with HTTP and mDNS. Hex, Defs, Handlers, Chunks, Network and
--   Modes are the code; RoundTrip, Starting, Received, Sound and Managed the proofs.
-- - Discovery: components/typx_discovery/src/typx_discovery.c, the name and the record of mDNS.
-- - Base: the shared names, lists measured by native numbers, Boolean tests, bits, and texts with what
--   the code uses of C's library on them.
--
-- Records are the structures and data types the enumerations, with the constructors in the order of the
-- source. A pointer is the object that it points to; NULL is `none` where the code tests for it and the
-- test is modelled. A callback is a function of its context, which is passed through; a missing one is
-- `none`. An unsigned integer of w bits is a native number, with `% 2 ^ w` where it may wrap around.
-- Readers and storages that are read give the same bytes again: reading does not change their context.
--
-- The loops: the hash loops have one round of fuel for each byte that is left, and a round takes at
-- least a byte (`hash_loop_lem` of Protocol/Hashing shows the loop ends with all bytes taken); the
-- comparison of a repeated chunk is the same; the loop of the battery has a round for each
-- millisecond counted, and takes at least one when the interval is not 0. The loop of an update of
-- Sha256 has a round for each byte. The loops over records and chunks are by recursion on what is
-- left. The task that releases the keys has a round for each attempt and one more
-- (`safety_release_task-Finishes` of BleHid/Confirmed shows that it returns); a wait has a round
-- for each tick, which is enough where 10 ms are at least a tick (`scheduler_wait_ticks-enough` of
-- BleHid/Waiting), and the loop that receives a chunk one for each byte, and a round takes at least
-- one.
--
-- The state of the keyboard's service holds the state of the platform, and that of the Wi-Fi service
-- is such a state, so that an observer of a run and the marker act on the job. A delay runs the other
-- tasks: it is a function on the whole state. Other calls are taken to be one step.
--
-- The storage of IdentityService is a parameter with the properties that its documentation gives
-- (`IsStorage` of IdentityService/Writes); a restart is a call of `init` on a world whose storage reads
-- as it was left. The reading of JSON is a parameter without properties.
--
-- Not modelled: mbedTLS itself (its functions are parameters), the initialisation of the Bluetooth stack,
-- the loading of the network's credentials, the answers that only report the state of the job or the
-- network, the console under targets/esp32_cam/main/typx_console.c and app_main of main.c, which call the
-- other parts and log, the tables of strings for codes, the tests and the Python tools.
pub mod Base
pub mod StateMachine
pub mod Safety
pub mod Protocol
pub mod Executor
pub mod Upload
pub mod Identity
pub mod IdentityService
pub mod IdentityHttp
pub mod LocalSchedule
pub mod Embedded
pub mod Station
pub mod HidRuntime
pub mod BleHid
pub mod WifiService
pub mod Discovery
pub mod Sha256
