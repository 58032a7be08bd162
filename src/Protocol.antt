-- ===== src/Protocol.antt =====
-- host-protocol/src/lib.rs: the messages between the MPU and the BLE controller. A byte is a
-- number; `Message`, `DeviceName`, `&str`, `&[u8]` and arrays are lists of them.
pub mod Frame
pub mod Wire
pub mod Compatibility
use prime_ble_firmware.Base.{ℕ, Bool, true, false, List}
use prime_ble_firmware.Base.Int.{ℤ, pos, negsuc}

abbrev pub Bytes : Type 0
Bytes = List ℕ

-- `bitflags!`: the bits of a `u8`.
pub record AdvChan : Type 0 where
  pub bits : ℕ

-- The bits of all three channels.
abbrev pub adv_chan_all : ℕ
adv_chan_all = 0xE0

pub data TxPower : Type 0 where
  negative40_dbm negative20_dbm negative16_dbm negative12_dbm negative8_dbm : TxPower
  negative4_dbm zero_dbm positive3_dbm positive4_dbm : TxPower

unfoldable pub i8_from_tx_power : TxPower → ℤ
i8_from_tx_power TxPower.negative40_dbm = negsuc 39
i8_from_tx_power TxPower.negative20_dbm = negsuc 19
i8_from_tx_power TxPower.negative16_dbm = negsuc 15
i8_from_tx_power TxPower.negative12_dbm = negsuc 11
i8_from_tx_power TxPower.negative8_dbm = negsuc 7
i8_from_tx_power TxPower.negative4_dbm = negsuc 3
i8_from_tx_power TxPower.zero_dbm = pos 0
i8_from_tx_power TxPower.positive3_dbm = pos 3
i8_from_tx_power TxPower.positive4_dbm = pos 4

pub data SecretSaveResponse : Type 0 where
  not_allowed sealed error : SecretSaveResponse

pub data TrustLevel : Type 0 where
  full developer : TrustLevel

pub data State : Type 0 where
  enabled disabled firmware_upgrade unknown : State

pub data PostcardError : Type 0 where
  deser over_full : PostcardError

pub data SendDataResponse : Type 0 where
  sent buffer_full : SendDataResponse

pub data ConnectionStatus : Type 0 where
  disabled waiting_for_connection : ConnectionStatus
  connected : ℤ → ConnectionStatus

pub record BluetoothStatus : Type 0 where
  pub connection : ConnectionStatus
  pub queue_overflow : Bool

pub data Bluetooth : Type 0 where
  disable_channels : AdvChan → Bluetooth
  ack_disable_channels nack_disable_channels enable ack_enable disable ack_disable : Bluetooth
  get_status : Bluetooth
  status : BluetoothStatus → Bluetooth
  send_data : Bytes → Bluetooth
  send_data_response : SendDataResponse → Bluetooth
  get_received_data : Bluetooth
  received_data : Bytes → Bluetooth
  no_received_data get_firmware_version : Bluetooth
  ack_firmware_version : Bytes → Bluetooth
  get_bt_address : Bluetooth
  ack_bt_address : Bytes → Bluetooth
  set_tx_power : TxPower → Bluetooth
  ack_tx_power get_device_id : Bluetooth
  ack_device_id : Bytes → Bluetooth
  disconnect ack_disconnect : Bluetooth
  set_device_name : Bytes → Bluetooth
  ack_set_device_name : Bluetooth
  echo echo_response : Bytes → Bluetooth

unfoldable pub bluetooth_is_request : Bluetooth → Bool
bluetooth_is_request (Bluetooth.disable_channels _) = true
bluetooth_is_request Bluetooth.ack_disable_channels = false
bluetooth_is_request Bluetooth.nack_disable_channels = false
bluetooth_is_request Bluetooth.enable = true
bluetooth_is_request Bluetooth.ack_enable = false
bluetooth_is_request Bluetooth.disable = true
bluetooth_is_request Bluetooth.ack_disable = false
bluetooth_is_request Bluetooth.get_status = true
bluetooth_is_request (Bluetooth.status _) = false
bluetooth_is_request (Bluetooth.send_data _) = true
bluetooth_is_request (Bluetooth.send_data_response _) = false
bluetooth_is_request Bluetooth.get_received_data = true
bluetooth_is_request (Bluetooth.received_data _) = false
bluetooth_is_request Bluetooth.no_received_data = false
bluetooth_is_request Bluetooth.get_firmware_version = true
bluetooth_is_request (Bluetooth.ack_firmware_version _) = false
bluetooth_is_request Bluetooth.get_bt_address = true
bluetooth_is_request (Bluetooth.ack_bt_address _) = false
bluetooth_is_request (Bluetooth.set_tx_power _) = true
bluetooth_is_request Bluetooth.ack_tx_power = false
bluetooth_is_request Bluetooth.get_device_id = true
bluetooth_is_request (Bluetooth.ack_device_id _) = false
bluetooth_is_request Bluetooth.disconnect = true
bluetooth_is_request Bluetooth.ack_disconnect = false
bluetooth_is_request (Bluetooth.set_device_name _) = true
bluetooth_is_request Bluetooth.ack_set_device_name = false
bluetooth_is_request (Bluetooth.echo _) = true
bluetooth_is_request (Bluetooth.echo_response _) = false

pub data Bootloader : Type 0 where
  erase_firmware ack_erase_firmware nack_erase_firmware_read nack_erase_firmware : Bootloader
  nack_erase_firmware_write : Bootloader
  -- result, hash
  ack_verify_firmware : Bool → Bytes → Bootloader
  nack_with_idx ack_with_idx : ℕ → Bootloader
  -- block_idx, crc
  ack_with_idx_crc : ℕ → ℕ → Bootloader
  -- block_idx, block_data
  write_firmware_block : ℕ → Bytes → Bootloader
  firmware_out_of_bounds : ℕ → Bootloader
  no_cosign_header firmware_version : Bootloader
  ack_firmware_version : Bytes → Bootloader
  bootloader_version : Bootloader
  ack_bootloader_version : Bytes → Bootloader
  -- eight words
  challenge_set : List ℕ → Bootloader
  ack_challenge_set : SecretSaveResponse → Bootloader
  boot_firmware : TrustLevel → Bootloader

unfoldable pub bootloader_is_request : Bootloader → Bool
bootloader_is_request Bootloader.erase_firmware = true
bootloader_is_request Bootloader.ack_erase_firmware = false
bootloader_is_request Bootloader.nack_erase_firmware_read = false
bootloader_is_request Bootloader.nack_erase_firmware = false
bootloader_is_request Bootloader.nack_erase_firmware_write = false
bootloader_is_request (Bootloader.ack_verify_firmware _ _) = false
bootloader_is_request (Bootloader.nack_with_idx _) = false
bootloader_is_request (Bootloader.ack_with_idx _) = false
bootloader_is_request (Bootloader.ack_with_idx_crc _ _) = false
bootloader_is_request (Bootloader.write_firmware_block _ _) = true
bootloader_is_request (Bootloader.firmware_out_of_bounds _) = false
bootloader_is_request Bootloader.no_cosign_header = false
bootloader_is_request Bootloader.firmware_version = true
bootloader_is_request (Bootloader.ack_firmware_version _) = false
bootloader_is_request Bootloader.bootloader_version = true
bootloader_is_request (Bootloader.ack_bootloader_version _) = false
bootloader_is_request (Bootloader.challenge_set _) = true
bootloader_is_request (Bootloader.ack_challenge_set _) = false
bootloader_is_request (Bootloader.boot_firmware _) = true

pub data HostProtocolMessage : Type 0 where
  bluetooth : Bluetooth → HostProtocolMessage
  bootloader : Bootloader → HostProtocolMessage
  reset get_state : HostProtocolMessage
  ack_state : State → HostProtocolMessage
  challenge_request : ℕ → HostProtocolMessage
  challenge_result : Bytes → HostProtocolMessage
  postcard_error : PostcardError → HostProtocolMessage
  inappropriate_message : State → HostProtocolMessage

unfoldable pub is_request : HostProtocolMessage → Bool
unfolding bluetooth_is_request bootloader_is_request
is_request (HostProtocolMessage.bluetooth sub) = bluetooth_is_request sub
is_request (HostProtocolMessage.bootloader sub) = bootloader_is_request sub
is_request HostProtocolMessage.reset = true
is_request HostProtocolMessage.get_state = true
is_request (HostProtocolMessage.ack_state _) = false
is_request (HostProtocolMessage.challenge_request _) = true
is_request (HostProtocolMessage.challenge_result _) = false
is_request (HostProtocolMessage.postcard_error _) = false
is_request (HostProtocolMessage.inappropriate_message _) = false
