-- ===== src/Protocol/Wire/RoundTrip/Messages.antt =====
-- What is written of a message of host-protocol/src/lib.rs is read back as that message.
use prime_ble_firmware.Base.{◌≡◌, some, ◌++◌, arith}
use prime_ble_firmware.Protocol.{Bytes, HostProtocolMessage}
use prime_ble_firmware.Protocol.Wire.{Postcard, PostcardLaws, IsU8}
use prime_ble_firmware.Protocol.Wire.Parts.{write_array, read_array-write_array}
use prime_ble_firmware.Protocol.Wire.Enums.{state_index, postcard_error_index}
use prime_ble_firmware.Protocol.Wire.Bluetooth.{write_bluetooth}
use prime_ble_firmware.Protocol.Wire.Bootloader.{write_bootloader}
use prime_ble_firmware.Protocol.Wire.Messages.{write_message, read_message, wire_codec}
use prime_ble_firmware.Protocol.Wire.Validity.{IsMessage}
use prime_ble_firmware.Protocol.Wire.RoundTrip.{
  read_variant-write, read_unit-write, read_state-write, read_postcard_error-write,
}
use prime_ble_firmware.Protocol.Wire.RoundTrip.Bluetooth.{read_bluetooth-write_bluetooth}
use prime_ble_firmware.Protocol.Wire.RoundTrip.Bootloader.{read_bootloader-write_bootloader}

module _ (p : Postcard) (laws : PostcardLaws p) where
  pub read_message-write_message :
      (m : HostProtocolMessage) (rest : Bytes)
      → IsMessage p m
      → read_message p (write_message p m ++ rest) ≡ some (m, rest)
  unfolding read_message write_message
  read_message-write_message (HostProtocolMessage.bluetooth sub) rest h = ground (
    arith,
    read_variant-write p laws 0 (write_bluetooth p sub) rest,
    read_bluetooth-write_bluetooth p laws sub rest,
  )
  read_message-write_message (HostProtocolMessage.bootloader sub) rest h = ground (
    arith,
    read_variant-write p laws 1 (write_bootloader p sub) rest,
    read_bootloader-write_bootloader p laws sub rest,
  )
  read_message-write_message HostProtocolMessage.reset rest h =
      ground (arith, read_unit-write p laws 2 rest)
  read_message-write_message HostProtocolMessage.get_state rest h =
      ground (arith, read_unit-write p laws 3 rest)
  read_message-write_message (HostProtocolMessage.ack_state s) rest h = ground (
    arith,
    read_variant-write p laws 4 (p.variant.write (state_index s)) rest,
    read_state-write p laws s rest,
  )
  read_message-write_message (HostProtocolMessage.challenge_request nonce) rest h = ground (
    arith,
    read_variant-write p laws 5 (p.u64.write nonce) rest,
    laws.u64_laws.read-write nonce rest,
  )
  read_message-write_message (HostProtocolMessage.challenge_result result) rest h = ground (
    arith,
    read_variant-write p laws 6 (write_array p.u8 result) rest,
    read_array-write_array p.u8 IsU8 1 laws.u8_laws result rest,
  )
  read_message-write_message (HostProtocolMessage.postcard_error e) rest h = ground (
    arith,
    read_variant-write p laws 7 (p.variant.write (postcard_error_index e)) rest,
    read_postcard_error-write p laws e rest,
  )
  read_message-write_message (HostProtocolMessage.inappropriate_message s) rest h = ground (
    arith,
    read_variant-write p laws 8 (p.variant.write (state_index s)) rest,
    read_state-write p laws s rest,
  )

  -- What is written of a message that its type can hold is read as that message, whatever bytes
  -- follow it.
  pub from_bytes-write_message :
      (m : HostProtocolMessage) (trailing : Bytes)
      → IsMessage p m
      → (wire_codec p).from_bytes (write_message p m ++ trailing) ≡ some m
  from_bytes-write_message m trailing h = ground (arith, read_message-write_message m trailing)
