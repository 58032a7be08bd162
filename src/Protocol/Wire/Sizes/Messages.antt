-- ===== src/Protocol/Wire/Sizes/Messages.antt =====
-- How long the messages of host-protocol/src/lib.rs get: all that are brief fit a frame.
use prime_ble_firmware.Base.{◌-◌, arith, length, ◌≤◌}
use prime_ble_firmware.Protocol.{HostProtocolMessage}
use prime_ble_firmware.Protocol.Wire.{Postcard, PostcardLaws, IsU8}
use prime_ble_firmware.Protocol.Wire.Parts.{write_array}
use prime_ble_firmware.Protocol.Wire.Enums.{state_index, postcard_error_index}
use prime_ble_firmware.Protocol.Wire.Bluetooth.{write_bluetooth}
use prime_ble_firmware.Protocol.Wire.Bootloader.{write_bootloader}
use prime_ble_firmware.Protocol.Wire.Messages.{write_message}
use prime_ble_firmware.Protocol.Wire.Validity.{IsMessage}
use prime_ble_firmware.Consts.{max_msg_size}
use prime_ble_firmware.Protocol.Wire.Sizes.{IsBrief, length-variant_payload, length-array}
use prime_ble_firmware.Protocol.Wire.Sizes.Bluetooth.{length-write_bluetooth}
use prime_ble_firmware.Protocol.Wire.Sizes.Bootloader.{length-write_bootloader}

module _ (p : Postcard) (laws : PostcardLaws p) where
  pub length-write_message :
      (m : HostProtocolMessage)
      → IsMessage p m
      → IsBrief (m)
      → length (write_message p m) ≤ max_msg_size - 2
  unfolding write_message
  length-write_message (HostProtocolMessage.bluetooth sub) h brief = omega (
    arith,
    length-variant_payload p laws 0 267 (write_bluetooth p sub) (omega arith)
        (length-write_bluetooth p laws sub h brief),
  )
  length-write_message (HostProtocolMessage.bootloader sub) h brief = omega (
    arith,
    length-variant_payload p laws 1 267 (write_bootloader p sub) (omega arith)
        (length-write_bootloader p laws sub h brief),
  )
  length-write_message HostProtocolMessage.reset h brief = omega (arith, laws.length-variant 2)
  length-write_message HostProtocolMessage.get_state h brief = omega (arith, laws.length-variant 3)
  length-write_message (HostProtocolMessage.ack_state s) h brief = omega (
    arith,
    length-variant_payload p laws 4 1 (p.variant.write (state_index s)) (omega arith)
        (laws.length-variant (state_index s) (ground arith)),
  )
  length-write_message (HostProtocolMessage.challenge_request nonce) h brief = omega (
    arith,
    length-variant_payload p laws 5 10 (p.u64.write nonce) (omega arith)
        (laws.u64_laws.length-write nonce h),
  )
  length-write_message (HostProtocolMessage.challenge_result result) h brief = omega (
    arith,
    length-variant_payload p laws 6 32 (write_array p.u8 result) (omega arith)
        (length-array p laws p.u8 IsU8 1 32 laws.u8_laws result h),
  )
  length-write_message (HostProtocolMessage.postcard_error e) h brief = omega (
    arith,
    length-variant_payload p laws 7 1 (p.variant.write (postcard_error_index e)) (omega arith)
        (laws.length-variant (postcard_error_index e) (ground arith)),
  )
  length-write_message (HostProtocolMessage.inappropriate_message s) h brief = omega (
    arith,
    length-variant_payload p laws 8 1 (p.variant.write (state_index s)) (omega arith)
        (laws.length-variant (state_index s) (ground arith)),
  )
