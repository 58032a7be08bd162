-- ===== src/Protocol/Wire/Messages.antt =====
-- `HostProtocolMessage` of host-protocol/src/lib.rs as bytes, and back, and the calls of postcard.
use prime_ble_firmware.Base.{ℕ, ◌++◌, Option, none, some, leb, ◌==◌, if◌then◌else◌, length}
use prime_ble_firmware.Protocol.{Bytes, HostProtocolMessage}
use prime_ble_firmware.Platform.{Codec}
use prime_ble_firmware.Protocol.Wire.{Postcard}
use prime_ble_firmware.Protocol.Wire.Parts.{◌>>=◌, made_of, write_array, read_array}
use prime_ble_firmware.Protocol.Wire.Enums.{
  state_index, state_at, postcard_error_index, postcard_error_at, read_enum,
}
use prime_ble_firmware.Protocol.Wire.Bluetooth.{write_bluetooth, read_bluetooth}
use prime_ble_firmware.Protocol.Wire.Bootloader.{write_bootloader, read_bootloader}

module _ (p : Postcard) where
  unfoldable pub write_message : HostProtocolMessage → Bytes
  write_message (HostProtocolMessage.bluetooth sub) = p.variant.write 0 ++ write_bluetooth p sub
  write_message (HostProtocolMessage.bootloader sub) = p.variant.write 1 ++ write_bootloader p sub
  write_message HostProtocolMessage.reset = p.variant.write 2
  write_message HostProtocolMessage.get_state = p.variant.write 3
  write_message (HostProtocolMessage.ack_state s) =
      p.variant.write 4 ++ p.variant.write (state_index s)
  write_message (HostProtocolMessage.challenge_request nonce) =
      p.variant.write 5 ++ p.u64.write nonce
  write_message (HostProtocolMessage.challenge_result result) =
      p.variant.write 6 ++ write_array p.u8 result
  write_message (HostProtocolMessage.postcard_error e) =
      p.variant.write 7 ++ p.variant.write (postcard_error_index e)
  write_message (HostProtocolMessage.inappropriate_message s) =
      p.variant.write 8 ++ p.variant.write (state_index s)

  unfoldable pub read_message_at : ℕ → Bytes → Option (HostProtocolMessage × Bytes)
  read_message_at n bs =
      if n == 0
      then made_of HostProtocolMessage.bluetooth (read_bluetooth p bs)
      else if n == 1
      then made_of HostProtocolMessage.bootloader (read_bootloader p bs)
      else if n == 2
      then some (HostProtocolMessage.reset, bs)
      else if n == 3
      then some (HostProtocolMessage.get_state, bs)
      else if n == 4
      then made_of HostProtocolMessage.ack_state (read_enum p state_at bs)
      else if n == 5
      then made_of HostProtocolMessage.challenge_request (p.u64.read bs)
      else if n == 6
      then made_of HostProtocolMessage.challenge_result (read_array p.u8 32 bs)
      else if n == 7
      then made_of HostProtocolMessage.postcard_error (read_enum p postcard_error_at bs)
      else if n == 8
      then made_of HostProtocolMessage.inappropriate_message (read_enum p state_at bs)
      else none

  unfoldable pub read_message : Bytes → Option (HostProtocolMessage × Bytes)
  unfolding read_message_at
  read_message bs = do (n, rest) ← p.variant.read bs; read_message_at n rest

  abbrev message_of : Option (HostProtocolMessage × Bytes) → Option HostProtocolMessage
  message_of none = none
  message_of (some (m, _)) = some m

  -- `from_bytes` drops what follows the message, and `to_slice` fails if the buffer is too short.
  abbrev pub wire_codec : Codec
  wire_codec = record {
    from_bytes = λ bs. message_of (read_message bs);
    to_slice = λ m n. if leb (length (write_message m)) n then some (write_message m) else none;
  }
