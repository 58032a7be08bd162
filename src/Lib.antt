-- ===== src/Lib.antt =====
-- Passport Prime's Bluetooth controller: the bootloader and the firmware of an nRF52805, the
-- protocol by which the main processor (the MPU) drives them over SPI, and the tool that merges the
-- images to be programmed.
--
-- The parts and how they interact. The MPU sends a message, framed by its length and encoded by
-- postcard, and gets a response. After a reset the bootloader answers: it erases and rewrites the
-- application's flash block by block, stores the secret of the challenge in the UICR and seals it,
-- and, when asked to boot, checks the image's signatures, protects the flash and jumps to the image.
-- Then the firmware answers: one task handles the MPU's messages, another advertises and serves a
-- connection, whose writes are queued for the MPU; the two share the statics of firmware/src/main.rs.
--
-- Where the parts are modelled:
--   Consts     consts/src/lib.rs, bootloader/src/consts.rs: addresses, sizes and magic values.
--   Protocol   host-protocol/src/lib.rs: the messages and `is_request`. Protocol.Frame: the framing
--              of `ack_msg_send` in bootloader/src/main.rs and of `comms_task`. Protocol.Wire: the
--              bytes of a message, as the derived Serialize and Deserialize make and read them,
--              over postcard's numbers (Postcard); what a message may hold (Validity), and the codec
--              (wire_codec). Protocol.Compatibility: the compatibility test with its tables.
--   Platform   what other crates and the chip provide, as records of operations, and records of
--              the laws that they document: flash, UICR, micro-ecc, cosign2, hashes, postcard.
--   Boot       bootloader/src. Memory: `BootState`, the arms `EraseFirmware` (erase_firmware) and
--              `WriteFirmwareBlock` (write_firmware_block), `get_fw_image_slice`. Secret:
--              `write_secret` and the arms `ChallengeSet` and `ChallengeRequest`. Verify:
--              bootloader/src/verify.rs. Protect: the two BPROT functions. Jump:
--              bootloader/src/jump_app.rs, its instructions one by one. Session: the main loop, one
--              function for a message (handle) and one for a round (round); Session.Reach: the
--              states that rounds lead to; Session.Uploaded: the messages of a whole update;
--              Session.Wired: rounds on the bytes of the wire format.
--   Firmware   firmware/src. Kernel: embassy's channel and signal and the radio as parameters, and
--              the statics (World). Comms: `host_protocol_handler` and a round of `comms_task` of
--              comms.rs. Nus: `Nus::handle` of nus.rs. Server: `run_bluetooth` of server.rs as steps
--              between the points at which it waits (Step), its panic included. Startup: `main` of
--              main.rs, the statics and the context as it leaves them. Settings, Setup: what it
--              asks of the SoftDevice, the clocks and the pins.
--   Link       bootloader/build.rs, firmware/build.rs: the memory regions for the linker, and what
--              the scripts tell Cargo (Build).
--   HostControl
--              host-protocol/examples/host_control.rs: a command and an update as the host runs
--              them, over a serial port (Serial) and postcard's COBS framing (Cobs), which are
--              parameters. HostControl.Sent and HostControl.Update: what it writes. It is not joined
--              to the bootloader, which reads plain postcard over SPI.
--   HostBle    host-ble/src/main.rs: the test program of a desktop, which writes packets by radio, as
--              tasks on btleplug (Central). HostBle.Delivery: on to the MPU, by what is written to the
--              characteristic that the firmware takes packets from.
--   Device     the bootloader and the firmware in turn on one chip, over launches, resets and power
--              cycles (Step), and what holds over its whole life. Device.Flash: on a flash that goes by
--              the BPROT registers (Nvmc).
--   Xtask      xtask/src/main.rs. Merge: `merge_files` and `patches_7_3_0`. Task: what a
--              function does to the machine (Host), and how it leaves the program. Build: the
--              builds and packages. Command: the signing, the check of the toolchain and `main`.
--   Base       Boolean tests, lists and words; Tests: a simulated chip and concrete runs.
--
-- How state and errors are modelled. The loop of the bootloader passes a Loader (flash, offset of
-- the update, registers, seal, protected pages), the firmware a World. A handler returns the new
-- state and the response. A call that fails returns `none`, or the state and `false`.
--
-- Bounds. A word wraps at 2^32. The bootloader reads at most 512 bytes at a time, so a block is no
-- longer than that, and the offset of an update stays below the size of the area and one block more:
-- its sums never wrap. The cutting of a file into chunks runs on fuel, as many rounds as there are
-- bytes, which is enough since each round takes at least one.
--
-- What is not modelled. The builds are those of a release: the variants under the feature `debug`
-- are left out. So are delays, logging and what the tools of the desktop print. Power is lost only
-- between two messages. In xtask, sums of `u32` wrap as without overflow checks.
pub mod Base
pub mod Consts
pub mod Protocol
pub mod Platform
pub mod Boot
pub mod Firmware
pub mod Link
pub mod HostControl
pub mod HostBle
pub mod Device
pub mod Xtask
pub mod Tests
