-- ===== src/Protocol/Wire/Sizes.antt =====
-- How long the parts of the messages of host-protocol/src/lib.rs get.
pub mod Bluetooth
pub mod Bootloader
pub mod Messages
use prime_ble_firmware.Base.{
  ℕ, ◌+◌, ◌<◌, subst, ◌-◌, List, ◌++◌, arith, length, ◌≤◌, ◌*◌, length-append,
}
use prime_ble_firmware.Protocol
use prime_ble_firmware.Protocol.{Bytes, ConnectionStatus, HostProtocolMessage}
use prime_ble_firmware.Protocol.Wire.{Postcard, PostcardLaws, IsU8, IsU32, FormatLaws, Format}
use prime_ble_firmware.Protocol.Wire.Parts.{
  write_array, write_bytes, length-write_array, length-write_bytes_short, IsArray,
}
use prime_ble_firmware.Protocol.Wire.Enums.{
  tx_power_index, secret_save_response_index, trust_level_index, state_index, postcard_error_index,
  send_data_response_index,
}
use prime_ble_firmware.Protocol.Wire.Bluetooth.{write_connection_status, write_bluetooth}
use prime_ble_firmware.Protocol.Wire.Bootloader.{write_bootloader}
use prime_ble_firmware.Protocol.Wire.Messages.{write_message}
use prime_ble_firmware.Protocol.Wire.Validity.{
  IsConnectionStatus, IsBluetooth, IsBootloader, IsMessage,
}
use prime_ble_firmware.Consts.{max_msg_size}

-- A version and a block of firmware that leave room for the rest of a frame.
abbrev pub IsBrief : HostProtocolMessage → Type 0
IsBrief (HostProtocolMessage.bluetooth (Protocol.Bluetooth.ack_firmware_version version)) =
    length version ≤ 264
IsBrief (HostProtocolMessage.bootloader (Protocol.Bootloader.ack_firmware_version version)) =
    length version ≤ 264
IsBrief (HostProtocolMessage.bootloader (Protocol.Bootloader.ack_bootloader_version version)) =
    length version ≤ 264
IsBrief
      (HostProtocolMessage.bootloader
        (Protocol.Bootloader.write_firmware_block block_idx block_data)) =
    length block_data ≤ 259
IsBrief _ = Unit {0}

module _ (p : Postcard) (laws : PostcardLaws p) where
  -- The index of a variant takes one byte.
  pub length-variant_payload :
      (k n : ℕ) (payload : Bytes)
      → k < 128
      → length payload ≤ n
      → length (p.variant.write k ++ payload) ≤ 1 + n
  length-variant_payload k n payload lt h =
      omega (arith, length-append (p.variant.write k) payload, laws.length-variant k lt)

  pub length-two : (a b : Bytes) (m n : ℕ) → length a ≤ m → length b ≤ n → length (a ++ b) ≤ m + n
  length-two a b m n ha hb = omega (arith, length-append a b)

  pub length-array :
      (f : Format ℕ) (P : ℕ → Type 0) (size n : ℕ)
      → FormatLaws f P size
      → (xs : List ℕ) → IsArray P n xs
      → length (write_array f xs) ≤ n * size
  length-array f P size n f_laws xs h =
      subst (λ k. length (write_array f xs) ≤ k * size) h.0
        (length-write_array f P size f_laws xs h.1)

  pub length-connection_status :
      (s : ConnectionStatus) → IsConnectionStatus p s → length (write_connection_status p s) ≤ 2
  unfolding write_connection_status
  length-connection_status ConnectionStatus.disabled h = omega (arith, laws.length-variant 0)
  length-connection_status ConnectionStatus.waiting_for_connection h =
      omega (arith, laws.length-variant 1)
  length-connection_status (ConnectionStatus.connected rssi) h =
      length-variant_payload 2 1 (p.i8.write rssi) (omega arith) (laws.i8_laws.length-write rssi h)
