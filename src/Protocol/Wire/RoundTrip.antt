-- ===== src/Protocol/Wire/RoundTrip.antt =====
-- What is written of a part of a message of host-protocol/src/lib.rs is read back as that part.
pub mod Bluetooth
pub mod Bootloader
pub mod Messages
use prime_ble_firmware.Base.{
  ℕ, ◌+◌, ◌<◌, ◌≡◌, refl, true, Option, none, some, List, [], ◌∷◌, ◌++◌, arith, length, leb,
  if◌then◌else◌, ◌==◌,
}
use mathlib.Core.List.{append_assoc}
use prime_ble_firmware.Consts.{u32_mod, app_mtu, max_device_name_len}
use prime_ble_firmware.Protocol.{
  Bytes, BluetoothStatus, ConnectionStatus, HostProtocolMessage, State, TxPower, TrustLevel,
  SecretSaveResponse, SendDataResponse, PostcardError,
}
use prime_ble_firmware.Protocol.Wire.{Postcard, PostcardLaws, IsU8, IsU32, IsU64}
use prime_ble_firmware.Protocol.Wire.Parts.{
  write_array, write_bytes, read_array-write_array, read_bytes-write_bytes, read_vec-write_bytes,
  read_str-write_bytes, read_string-write_bytes,
}
use prime_ble_firmware.Protocol.Wire.Enums.{
  read_enum, tx_power_index, tx_power_at, secret_save_response_index, secret_save_response_at,
  trust_level_index, trust_level_at, state_index, state_at, postcard_error_index, postcard_error_at,
  send_data_response_index, send_data_response_at,
}
use prime_ble_firmware.Protocol.Wire.Bluetooth.{
  write_connection_status, read_connection_status, read_bluetooth_status, write_bluetooth,
  read_bluetooth,
}
use prime_ble_firmware.Protocol.Wire.Bootloader.{write_bootloader, read_bootloader}
use prime_ble_firmware.Protocol.Wire.Messages.{write_message, read_message, wire_codec}
use prime_ble_firmware.Protocol.Wire.Validity.{
  IsConnectionStatus, IsBluetooth, IsBootloader, IsMessage,
}

module _ (p : Postcard) (laws : PostcardLaws p) where
  -- The index of a variant before its fields.
  pub read_variant-write :
      (k : ℕ) (payload rest : Bytes)
      → k < 128
      → p.variant.read ((p.variant.write k ++ payload) ++ rest) ≡ some (k, payload ++ rest)
  read_variant-write k payload rest lt = ground (
    arith,
    append_assoc (p.variant.write k) payload rest,
    laws.variant_laws.read-write k (payload ++ rest),
  )

  -- A variant without fields.
  pub read_unit-write :
      (k : ℕ) (rest : Bytes) → k < 128 → p.variant.read (p.variant.write k ++ rest) ≡ some (k, rest)
  read_unit-write k rest lt = ground (arith, laws.variant_laws.read-write k rest)

  -- Of an enumeration without fields, given its numbering.
  read_enum-write :
      {A : Type 0} (index : A → ℕ) (at : ℕ → Option A) (a : A) (rest : Bytes)
      → index a < 128
      → at (index a) ≡ some a
      → read_enum p at (p.variant.write (index a) ++ rest) ≡ some (a, rest)
  unfolding read_enum
  read_enum-write index at a rest lt e = ground (arith, read_unit-write (index a) rest)

  pub read_tx_power-write :
      (a : TxPower) (rest : Bytes)
      → read_enum p tx_power_at (p.variant.write (tx_power_index a) ++ rest) ≡ some (a, rest)
  read_tx_power-write a rest =
      read_enum-write tx_power_index tx_power_at a rest (ground arith) (ground arith)

  pub read_secret_save_response-write :
      (a : SecretSaveResponse) (rest : Bytes)
      → read_enum p secret_save_response_at (p.variant.write (secret_save_response_index a) ++ rest)
        ≡ some (a, rest)
  read_secret_save_response-write a rest =
      read_enum-write secret_save_response_index secret_save_response_at a rest (ground arith)
        (ground arith)

  pub read_trust_level-write :
      (a : TrustLevel) (rest : Bytes)
      → read_enum p trust_level_at (p.variant.write (trust_level_index a) ++ rest) ≡ some (a, rest)
  read_trust_level-write a rest =
      read_enum-write trust_level_index trust_level_at a rest (ground arith) (ground arith)

  pub read_state-write :
      (a : State) (rest : Bytes)
      → read_enum p state_at (p.variant.write (state_index a) ++ rest) ≡ some (a, rest)
  read_state-write a rest =
      read_enum-write state_index state_at a rest (ground arith) (ground arith)

  pub read_postcard_error-write :
      (a : PostcardError) (rest : Bytes)
      → read_enum p postcard_error_at (p.variant.write (postcard_error_index a) ++ rest)
        ≡ some (a, rest)
  read_postcard_error-write a rest =
      read_enum-write postcard_error_index postcard_error_at a rest (ground arith) (ground arith)

  pub read_send_data_response-write :
      (a : SendDataResponse) (rest : Bytes)
      → read_enum p send_data_response_at (p.variant.write (send_data_response_index a) ++ rest)
        ≡ some (a, rest)
  read_send_data_response-write a rest =
      read_enum-write send_data_response_index send_data_response_at a rest (ground arith)
        (ground arith)

  read_connection_status-write :
      (s : ConnectionStatus) (rest : Bytes)
      → IsConnectionStatus p s
      → read_connection_status p (write_connection_status p s ++ rest) ≡ some (s, rest)
  unfolding read_connection_status write_connection_status
  read_connection_status-write ConnectionStatus.disabled rest h =
      ground (arith, read_unit-write 0 rest)
  read_connection_status-write ConnectionStatus.waiting_for_connection rest h =
      ground (arith, read_unit-write 1 rest)
  read_connection_status-write (ConnectionStatus.connected rssi) rest h =
      ground (arith, read_variant-write 2 (p.i8.write rssi) rest, laws.i8_laws.read-write rssi rest)

  pub read_bluetooth_status-write :
      (s : BluetoothStatus) (rest : Bytes)
      → IsConnectionStatus p s.connection
      → read_bluetooth_status p
          ((write_connection_status p s.connection ++ p.bool.write s.queue_overflow) ++ rest)
        ≡ some (s, rest)
  unfolding read_bluetooth_status
  read_bluetooth_status-write s rest h = ground (
    arith,
    append_assoc (write_connection_status p s.connection) (p.bool.write s.queue_overflow) rest,
    read_connection_status-write s.connection (p.bool.write s.queue_overflow ++ rest),
    laws.bool_laws.read-write s.queue_overflow rest,
  )
