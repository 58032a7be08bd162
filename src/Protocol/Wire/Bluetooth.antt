-- ===== src/Protocol/Wire/Bluetooth.antt =====
-- `Bluetooth` of host-protocol/src/lib.rs as bytes, and back.
use prime_ble_firmware.Base.{ℕ, ◌++◌, Option, none, some, ◌==◌, if◌then◌else◌}
use prime_ble_firmware.Consts.{app_mtu, max_device_name_len}
use prime_ble_firmware.Protocol.{Bytes, ConnectionStatus, BluetoothStatus, Bluetooth}
use prime_ble_firmware.Protocol.Wire.{Postcard}
use prime_ble_firmware.Protocol.Wire.Parts.{
  ◌>>=◌, made_of, write_array, read_array, write_bytes, read_vec, read_str, read_string,
}
use prime_ble_firmware.Protocol.Wire.Enums.{
  tx_power_index, tx_power_at, send_data_response_index, send_data_response_at, read_enum,
}

module _ (p : Postcard) where
  unfoldable pub write_connection_status : ConnectionStatus → Bytes
  write_connection_status ConnectionStatus.disabled = p.variant.write 0
  write_connection_status ConnectionStatus.waiting_for_connection = p.variant.write 1
  write_connection_status (ConnectionStatus.connected rssi) = p.variant.write 2 ++ p.i8.write rssi

  unfoldable pub read_connection_status_at : ℕ → Bytes → Option (ConnectionStatus × Bytes)
  read_connection_status_at n bs =
      if n == 0
      then some (ConnectionStatus.disabled, bs)
      else if n == 1
      then some (ConnectionStatus.waiting_for_connection, bs)
      else if n == 2
      then made_of ConnectionStatus.connected (p.i8.read bs)
      else none

  unfoldable pub read_connection_status : Bytes → Option (ConnectionStatus × Bytes)
  unfolding read_connection_status_at
  read_connection_status bs = do (n, rest) ← p.variant.read bs; read_connection_status_at n rest

  unfoldable pub read_bluetooth_status : Bytes → Option (BluetoothStatus × Bytes)
  read_bluetooth_status bs = do
    (connection, rest) ← read_connection_status bs
    (queue_overflow, rest') ← p.bool.read rest
    some (record { connection = connection; queue_overflow = queue_overflow }, rest')

  unfoldable pub write_bluetooth : Bluetooth → Bytes
  write_bluetooth (Bluetooth.disable_channels chan) = p.variant.write 0 ++ p.u8.write chan.bits
  write_bluetooth Bluetooth.ack_disable_channels = p.variant.write 1
  write_bluetooth Bluetooth.nack_disable_channels = p.variant.write 2
  write_bluetooth Bluetooth.enable = p.variant.write 3
  write_bluetooth Bluetooth.ack_enable = p.variant.write 4
  write_bluetooth Bluetooth.disable = p.variant.write 5
  write_bluetooth Bluetooth.ack_disable = p.variant.write 6
  write_bluetooth Bluetooth.get_status = p.variant.write 7
  write_bluetooth (Bluetooth.status s) =
      p.variant.write 8 ++ (write_connection_status s.connection ++ p.bool.write s.queue_overflow)
  write_bluetooth (Bluetooth.send_data packet) = p.variant.write 9 ++ write_bytes p packet
  write_bluetooth (Bluetooth.send_data_response r) =
      p.variant.write 10 ++ p.variant.write (send_data_response_index r)
  write_bluetooth Bluetooth.get_received_data = p.variant.write 11
  write_bluetooth (Bluetooth.received_data packet) = p.variant.write 12 ++ write_bytes p packet
  write_bluetooth Bluetooth.no_received_data = p.variant.write 13
  write_bluetooth Bluetooth.get_firmware_version = p.variant.write 14
  write_bluetooth (Bluetooth.ack_firmware_version version) =
      p.variant.write 15 ++ write_bytes p version
  write_bluetooth Bluetooth.get_bt_address = p.variant.write 16
  write_bluetooth (Bluetooth.ack_bt_address bt_address) =
      p.variant.write 17 ++ write_array p.u8 bt_address
  write_bluetooth (Bluetooth.set_tx_power power) =
      p.variant.write 18 ++ p.variant.write (tx_power_index power)
  write_bluetooth Bluetooth.ack_tx_power = p.variant.write 19
  write_bluetooth Bluetooth.get_device_id = p.variant.write 20
  write_bluetooth (Bluetooth.ack_device_id device_id) =
      p.variant.write 21 ++ write_array p.u8 device_id
  write_bluetooth Bluetooth.disconnect = p.variant.write 22
  write_bluetooth Bluetooth.ack_disconnect = p.variant.write 23
  write_bluetooth (Bluetooth.set_device_name name) = p.variant.write 24 ++ write_bytes p name
  write_bluetooth Bluetooth.ack_set_device_name = p.variant.write 25
  write_bluetooth (Bluetooth.echo msg) = p.variant.write 26 ++ write_bytes p msg
  write_bluetooth (Bluetooth.echo_response msg) = p.variant.write 27 ++ write_bytes p msg

  unfoldable pub read_bluetooth_at : ℕ → Bytes → Option (Bluetooth × Bytes)
  read_bluetooth_at n bs =
      if n == 0
      then made_of (λ bits. Bluetooth.disable_channels (record { bits = bits })) (p.u8.read bs)
      else if n == 1
      then some (Bluetooth.ack_disable_channels, bs)
      else if n == 2
      then some (Bluetooth.nack_disable_channels, bs)
      else if n == 3
      then some (Bluetooth.enable, bs)
      else if n == 4
      then some (Bluetooth.ack_enable, bs)
      else if n == 5
      then some (Bluetooth.disable, bs)
      else if n == 6
      then some (Bluetooth.ack_disable, bs)
      else if n == 7
      then some (Bluetooth.get_status, bs)
      else if n == 8
      then made_of Bluetooth.status (read_bluetooth_status bs)
      else if n == 9
      then made_of Bluetooth.send_data (read_vec p app_mtu bs)
      else if n == 10
      then made_of Bluetooth.send_data_response (read_enum p send_data_response_at bs)
      else if n == 11
      then some (Bluetooth.get_received_data, bs)
      else if n == 12
      then made_of Bluetooth.received_data (read_vec p app_mtu bs)
      else if n == 13
      then some (Bluetooth.no_received_data, bs)
      else if n == 14
      then some (Bluetooth.get_firmware_version, bs)
      else if n == 15
      then made_of Bluetooth.ack_firmware_version (read_str p bs)
      else if n == 16
      then some (Bluetooth.get_bt_address, bs)
      else if n == 17
      then made_of Bluetooth.ack_bt_address (read_array p.u8 6 bs)
      else if n == 18
      then made_of Bluetooth.set_tx_power (read_enum p tx_power_at bs)
      else if n == 19
      then some (Bluetooth.ack_tx_power, bs)
      else if n == 20
      then some (Bluetooth.get_device_id, bs)
      else if n == 21
      then made_of Bluetooth.ack_device_id (read_array p.u8 8 bs)
      else if n == 22
      then some (Bluetooth.disconnect, bs)
      else if n == 23
      then some (Bluetooth.ack_disconnect, bs)
      else if n == 24
      then made_of Bluetooth.set_device_name (read_string p max_device_name_len bs)
      else if n == 25
      then some (Bluetooth.ack_set_device_name, bs)
      else if n == 26
      then made_of Bluetooth.echo (read_vec p app_mtu bs)
      else if n == 27
      then made_of Bluetooth.echo_response (read_vec p app_mtu bs)
      else none

  unfoldable pub read_bluetooth : Bytes → Option (Bluetooth × Bytes)
  unfolding read_bluetooth_at
  read_bluetooth bs = do (n, rest) ← p.variant.read bs; read_bluetooth_at n rest
