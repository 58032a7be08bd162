-- ===== src/Protocol/Wire/RoundTrip/Bluetooth.antt =====
-- What is written of a `Bluetooth` message is read back as that message.
use prime_ble_firmware.Base.{◌≡◌, some, ◌++◌, arith}
use prime_ble_firmware.Consts.{app_mtu, max_device_name_len}
use prime_ble_firmware.Protocol.{Bytes, Bluetooth}
use prime_ble_firmware.Protocol.Wire.{Postcard, PostcardLaws, IsU8}
use prime_ble_firmware.Protocol.Wire.Parts.{
  write_array, write_bytes, read_array-write_array, read_vec-write_bytes, read_str-write_bytes,
  read_string-write_bytes,
}
use prime_ble_firmware.Protocol.Wire.Enums.{tx_power_index, send_data_response_index}
use prime_ble_firmware.Protocol.Wire.Bluetooth.{
  write_connection_status, write_bluetooth, read_bluetooth,
}
use prime_ble_firmware.Protocol.Wire.Validity.{IsBluetooth}
use prime_ble_firmware.Protocol.Wire.RoundTrip.{
  read_variant-write, read_unit-write, read_tx_power-write, read_send_data_response-write,
  read_bluetooth_status-write,
}

module _ (p : Postcard) (laws : PostcardLaws p) where
  pub read_bluetooth-write_bluetooth :
      (m : Bluetooth) (rest : Bytes)
      → IsBluetooth p m
      → read_bluetooth p (write_bluetooth p m ++ rest) ≡ some (m, rest)
  unfolding read_bluetooth write_bluetooth
  read_bluetooth-write_bluetooth (Bluetooth.disable_channels chan) rest h = ground (
    arith,
    read_variant-write p laws 0 (p.u8.write chan.bits) rest,
    laws.u8_laws.read-write chan.bits rest,
  )
  read_bluetooth-write_bluetooth Bluetooth.ack_disable_channels rest h =
      ground (arith, read_unit-write p laws 1 rest)
  read_bluetooth-write_bluetooth Bluetooth.nack_disable_channels rest h =
      ground (arith, read_unit-write p laws 2 rest)
  read_bluetooth-write_bluetooth Bluetooth.enable rest h =
      ground (arith, read_unit-write p laws 3 rest)
  read_bluetooth-write_bluetooth Bluetooth.ack_enable rest h =
      ground (arith, read_unit-write p laws 4 rest)
  read_bluetooth-write_bluetooth Bluetooth.disable rest h =
      ground (arith, read_unit-write p laws 5 rest)
  read_bluetooth-write_bluetooth Bluetooth.ack_disable rest h =
      ground (arith, read_unit-write p laws 6 rest)
  read_bluetooth-write_bluetooth Bluetooth.get_status rest h =
      ground (arith, read_unit-write p laws 7 rest)
  read_bluetooth-write_bluetooth (Bluetooth.status s) rest h = ground (
    arith,
    read_variant-write p laws 8
        (write_connection_status p s.connection ++ p.bool.write s.queue_overflow) rest,
    read_bluetooth_status-write p laws s rest,
  )
  read_bluetooth-write_bluetooth (Bluetooth.send_data packet) rest h = ground (
    arith,
    read_variant-write p laws 9 (write_bytes p packet) rest,
    read_vec-write_bytes p laws app_mtu packet rest,
  )
  read_bluetooth-write_bluetooth (Bluetooth.send_data_response r) rest h = ground (
    arith,
    read_variant-write p laws 10 (p.variant.write (send_data_response_index r)) rest,
    read_send_data_response-write p laws r rest,
  )
  read_bluetooth-write_bluetooth Bluetooth.get_received_data rest h =
      ground (arith, read_unit-write p laws 11 rest)
  read_bluetooth-write_bluetooth (Bluetooth.received_data packet) rest h = ground (
    arith,
    read_variant-write p laws 12 (write_bytes p packet) rest,
    read_vec-write_bytes p laws app_mtu packet rest,
  )
  read_bluetooth-write_bluetooth Bluetooth.no_received_data rest h =
      ground (arith, read_unit-write p laws 13 rest)
  read_bluetooth-write_bluetooth Bluetooth.get_firmware_version rest h =
      ground (arith, read_unit-write p laws 14 rest)
  read_bluetooth-write_bluetooth (Bluetooth.ack_firmware_version version) rest h = ground (
    arith,
    read_variant-write p laws 15 (write_bytes p version) rest,
    read_str-write_bytes p laws version rest,
  )
  read_bluetooth-write_bluetooth Bluetooth.get_bt_address rest h =
      ground (arith, read_unit-write p laws 16 rest)
  read_bluetooth-write_bluetooth (Bluetooth.ack_bt_address bt_address) rest h = ground (
    arith,
    read_variant-write p laws 17 (write_array p.u8 bt_address) rest,
    read_array-write_array p.u8 IsU8 1 laws.u8_laws bt_address rest,
  )
  read_bluetooth-write_bluetooth (Bluetooth.set_tx_power power) rest h = ground (
    arith,
    read_variant-write p laws 18 (p.variant.write (tx_power_index power)) rest,
    read_tx_power-write p laws power rest,
  )
  read_bluetooth-write_bluetooth Bluetooth.ack_tx_power rest h =
      ground (arith, read_unit-write p laws 19 rest)
  read_bluetooth-write_bluetooth Bluetooth.get_device_id rest h =
      ground (arith, read_unit-write p laws 20 rest)
  read_bluetooth-write_bluetooth (Bluetooth.ack_device_id device_id) rest h = ground (
    arith,
    read_variant-write p laws 21 (write_array p.u8 device_id) rest,
    read_array-write_array p.u8 IsU8 1 laws.u8_laws device_id rest,
  )
  read_bluetooth-write_bluetooth Bluetooth.disconnect rest h =
      ground (arith, read_unit-write p laws 22 rest)
  read_bluetooth-write_bluetooth Bluetooth.ack_disconnect rest h =
      ground (arith, read_unit-write p laws 23 rest)
  read_bluetooth-write_bluetooth (Bluetooth.set_device_name name) rest h = ground (
    arith,
    read_variant-write p laws 24 (write_bytes p name) rest,
    read_string-write_bytes p laws max_device_name_len name rest,
  )
  read_bluetooth-write_bluetooth Bluetooth.ack_set_device_name rest h =
      ground (arith, read_unit-write p laws 25 rest)
  read_bluetooth-write_bluetooth (Bluetooth.echo msg) rest h = ground (
    arith,
    read_variant-write p laws 26 (write_bytes p msg) rest,
    read_vec-write_bytes p laws app_mtu msg rest,
  )
  read_bluetooth-write_bluetooth (Bluetooth.echo_response msg) rest h = ground (
    arith,
    read_variant-write p laws 27 (write_bytes p msg) rest,
    read_vec-write_bytes p laws app_mtu msg rest,
  )
