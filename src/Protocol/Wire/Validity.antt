-- ===== src/Protocol/Wire/Validity.antt =====
-- The messages that the types of host-protocol/src/lib.rs can hold: numbers in the range of their
-- types, arrays of their length, at most as many elements as a `heapless` vector has room for.
use prime_ble_firmware.Base.{◌≤◌, ◌<◌, ◌≡◌, true, length}
use prime_ble_firmware.Consts.{app_mtu, max_device_name_len, u32_mod}
use prime_ble_firmware.Protocol.{
  Bytes, Bluetooth, Bootloader, ConnectionStatus, HostProtocolMessage,
}
use prime_ble_firmware.Protocol.Wire.{Postcard, IsU8, IsU32, IsU64, IsI8}
use prime_ble_firmware.Protocol.Wire.Parts.{IsArray}

module _ (p : Postcard) where
  abbrev pub IsStr : Bytes → Type 0
  IsStr s = (length s < u32_mod) × (p.is_utf8 s ≡ true)

  abbrev pub IsConnectionStatus : ConnectionStatus → Type 0
  IsConnectionStatus (ConnectionStatus.connected rssi) = IsI8 rssi
  IsConnectionStatus _ = Unit {0}

  abbrev pub IsBluetooth : Bluetooth → Type 0
  IsBluetooth (Bluetooth.disable_channels chan) = IsU8 chan.bits
  IsBluetooth (Bluetooth.status s) = IsConnectionStatus s.connection
  IsBluetooth (Bluetooth.send_data packet) = length packet ≤ app_mtu
  IsBluetooth (Bluetooth.received_data packet) = length packet ≤ app_mtu
  IsBluetooth (Bluetooth.ack_firmware_version version) = IsStr version
  IsBluetooth (Bluetooth.ack_bt_address bt_address) = IsArray IsU8 6 bt_address
  IsBluetooth (Bluetooth.ack_device_id device_id) = IsArray IsU8 8 device_id
  IsBluetooth (Bluetooth.set_device_name name) = IsStr name × (length name ≤ max_device_name_len)
  IsBluetooth (Bluetooth.echo msg) = length msg ≤ app_mtu
  IsBluetooth (Bluetooth.echo_response msg) = length msg ≤ app_mtu
  IsBluetooth _ = Unit {0}

  abbrev pub IsBootloader : Bootloader → Type 0
  IsBootloader (Bootloader.ack_verify_firmware result hash) = IsArray IsU8 32 hash
  IsBootloader (Bootloader.nack_with_idx block_idx) = IsU32 block_idx
  IsBootloader (Bootloader.ack_with_idx block_idx) = IsU32 block_idx
  IsBootloader (Bootloader.ack_with_idx_crc block_idx crc) = IsU32 block_idx × IsU32 crc
  IsBootloader (Bootloader.write_firmware_block block_idx block_data) =
      IsU32 block_idx × (length block_data < u32_mod)
  IsBootloader (Bootloader.firmware_out_of_bounds block_idx) = IsU32 block_idx
  IsBootloader (Bootloader.ack_firmware_version version) = IsStr version
  IsBootloader (Bootloader.ack_bootloader_version version) = IsStr version
  IsBootloader (Bootloader.challenge_set secret) = IsArray IsU32 8 secret
  IsBootloader _ = Unit {0}

  abbrev pub IsMessage : HostProtocolMessage → Type 0
  IsMessage (HostProtocolMessage.bluetooth sub) = IsBluetooth sub
  IsMessage (HostProtocolMessage.bootloader sub) = IsBootloader sub
  IsMessage (HostProtocolMessage.challenge_request nonce) = IsU64 nonce
  IsMessage (HostProtocolMessage.challenge_result result) = IsArray IsU8 32 result
  IsMessage _ = Unit {0}
