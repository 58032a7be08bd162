-- ===== src/Protocol/Wire/Sizes/Bluetooth.antt =====
-- How long the `Bluetooth` messages get.
use prime_ble_firmware.Base.{◌++◌, arith, length, ◌≤◌}
use prime_ble_firmware.Protocol.{Bluetooth, HostProtocolMessage}
use prime_ble_firmware.Protocol.Wire.{Postcard, PostcardLaws, IsU8}
use prime_ble_firmware.Protocol.Wire.Parts.{write_array, write_bytes, length-write_bytes_short}
use prime_ble_firmware.Protocol.Wire.Enums.{tx_power_index, send_data_response_index}
use prime_ble_firmware.Protocol.Wire.Bluetooth.{write_connection_status, write_bluetooth}
use prime_ble_firmware.Protocol.Wire.Validity.{IsBluetooth}
use prime_ble_firmware.Protocol.Wire.Sizes.{
  IsBrief, length-variant_payload, length-two, length-array, length-connection_status,
}

module _ (p : Postcard) (laws : PostcardLaws p) where
  pub length-write_bluetooth :
      (m : Bluetooth)
      → IsBluetooth p m
      → IsBrief (HostProtocolMessage.bluetooth m)
      → length (write_bluetooth p m) ≤ 267
  unfolding write_bluetooth
  length-write_bluetooth (Bluetooth.disable_channels chan) h brief = omega (
    arith,
    length-variant_payload p laws 0 1 (p.u8.write chan.bits) (omega arith)
        (laws.u8_laws.length-write chan.bits h),
  )
  length-write_bluetooth Bluetooth.ack_disable_channels h brief =
      omega (arith, laws.length-variant 1)
  length-write_bluetooth Bluetooth.nack_disable_channels h brief =
      omega (arith, laws.length-variant 2)
  length-write_bluetooth Bluetooth.enable h brief = omega (arith, laws.length-variant 3)
  length-write_bluetooth Bluetooth.ack_enable h brief = omega (arith, laws.length-variant 4)
  length-write_bluetooth Bluetooth.disable h brief = omega (arith, laws.length-variant 5)
  length-write_bluetooth Bluetooth.ack_disable h brief = omega (arith, laws.length-variant 6)
  length-write_bluetooth Bluetooth.get_status h brief = omega (arith, laws.length-variant 7)
  length-write_bluetooth (Bluetooth.status s) h brief = omega (
    arith,
    length-variant_payload p laws 8 3
        (write_connection_status p s.connection ++ p.bool.write s.queue_overflow) (omega arith)
        (length-two p laws (write_connection_status p s.connection) (p.bool.write s.queue_overflow)
          2 1 (length-connection_status p laws s.connection h)
          (laws.bool_laws.length-write s.queue_overflow tt)),
  )
  length-write_bluetooth (Bluetooth.send_data packet) h brief = omega (
    arith,
    length-variant_payload p laws 9 266 (write_bytes p packet) (omega arith)
        (omega (arith, length-write_bytes_short p laws packet)),
  )
  length-write_bluetooth (Bluetooth.send_data_response r) h brief = omega (
    arith,
    length-variant_payload p laws 10 1 (p.variant.write (send_data_response_index r)) (omega arith)
        (laws.length-variant (send_data_response_index r) (ground arith)),
  )
  length-write_bluetooth Bluetooth.get_received_data h brief = omega (arith, laws.length-variant 11)
  length-write_bluetooth (Bluetooth.received_data packet) h brief = omega (
    arith,
    length-variant_payload p laws 12 266 (write_bytes p packet) (omega arith)
        (omega (arith, length-write_bytes_short p laws packet)),
  )
  length-write_bluetooth Bluetooth.no_received_data h brief = omega (arith, laws.length-variant 13)
  length-write_bluetooth Bluetooth.get_firmware_version h brief =
      omega (arith, laws.length-variant 14)
  length-write_bluetooth (Bluetooth.ack_firmware_version version) h brief = omega (
    arith,
    length-variant_payload p laws 15 266 (write_bytes p version) (omega arith)
        (omega (arith, length-write_bytes_short p laws version)),
  )
  length-write_bluetooth Bluetooth.get_bt_address h brief = omega (arith, laws.length-variant 16)
  length-write_bluetooth (Bluetooth.ack_bt_address bt_address) h brief = omega (
    arith,
    length-variant_payload p laws 17 6 (write_array p.u8 bt_address) (omega arith)
        (length-array p laws p.u8 IsU8 1 6 laws.u8_laws bt_address h),
  )
  length-write_bluetooth (Bluetooth.set_tx_power power) h brief = omega (
    arith,
    length-variant_payload p laws 18 1 (p.variant.write (tx_power_index power)) (omega arith)
        (laws.length-variant (tx_power_index power) (ground arith)),
  )
  length-write_bluetooth Bluetooth.ack_tx_power h brief = omega (arith, laws.length-variant 19)
  length-write_bluetooth Bluetooth.get_device_id h brief = omega (arith, laws.length-variant 20)
  length-write_bluetooth (Bluetooth.ack_device_id device_id) h brief = omega (
    arith,
    length-variant_payload p laws 21 8 (write_array p.u8 device_id) (omega arith)
        (length-array p laws p.u8 IsU8 1 8 laws.u8_laws device_id h),
  )
  length-write_bluetooth Bluetooth.disconnect h brief = omega (arith, laws.length-variant 22)
  length-write_bluetooth Bluetooth.ack_disconnect h brief = omega (arith, laws.length-variant 23)
  length-write_bluetooth (Bluetooth.set_device_name name) h brief = omega (
    arith,
    length-variant_payload p laws 24 266 (write_bytes p name) (omega arith)
        (omega (arith, length-write_bytes_short p laws name)),
  )
  length-write_bluetooth Bluetooth.ack_set_device_name h brief =
      omega (arith, laws.length-variant 25)
  length-write_bluetooth (Bluetooth.echo msg) h brief = omega (
    arith,
    length-variant_payload p laws 26 266 (write_bytes p msg) (omega arith)
        (omega (arith, length-write_bytes_short p laws msg)),
  )
  length-write_bluetooth (Bluetooth.echo_response msg) h brief = omega (
    arith,
    length-variant_payload p laws 27 266 (write_bytes p msg) (omega arith)
        (omega (arith, length-write_bytes_short p laws msg)),
  )
