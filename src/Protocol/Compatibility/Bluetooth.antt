-- ===== src/Protocol/Compatibility/Bluetooth.antt =====
-- The Bluetooth messages that host-protocol/src/lib.rs tests, with the bytes that it wants of them.
use prime_ble_firmware.Base.{List, [], ◌∷◌, replicate, true, false, ◌+◌}
use prime_ble_firmware.Base.Int.{pos, negsuc}
use prime_ble_firmware.Consts.{app_mtu}
use prime_ble_firmware.Protocol.{
  Bytes, HostProtocolMessage, Bluetooth, ConnectionStatus, SendDataResponse, TxPower,
}

-- `check_bluetooth_messages`.
abbrev pub bluetooth_messages : List (HostProtocolMessage × Bytes)
bluetooth_messages =
    (
      HostProtocolMessage.bluetooth (Bluetooth.disable_channels (record { bits = 0x20 + 0x40 })),
      0 ∷ 0 ∷ 96 ∷ [],
    )
    ∷ (
      HostProtocolMessage.bluetooth (Bluetooth.disable_channels (record { bits = 0x20 + 0x80 })),
      0 ∷ 0 ∷ 160 ∷ [],
    )
    ∷ (
      HostProtocolMessage.bluetooth (Bluetooth.disable_channels (record { bits = 0x40 + 0x80 })),
      0 ∷ 0 ∷ 192 ∷ [],
    )
    ∷ (HostProtocolMessage.bluetooth Bluetooth.ack_disable_channels, 0 ∷ 1 ∷ [])
    ∷ (HostProtocolMessage.bluetooth Bluetooth.nack_disable_channels, 0 ∷ 2 ∷ [])
    ∷ (HostProtocolMessage.bluetooth Bluetooth.enable, 0 ∷ 3 ∷ [])
    ∷ (HostProtocolMessage.bluetooth Bluetooth.ack_enable, 0 ∷ 4 ∷ [])
    ∷ (HostProtocolMessage.bluetooth Bluetooth.disable, 0 ∷ 5 ∷ [])
    ∷ (HostProtocolMessage.bluetooth Bluetooth.ack_disable, 0 ∷ 6 ∷ [])
    ∷ (HostProtocolMessage.bluetooth Bluetooth.get_status, 0 ∷ 7 ∷ [])
    ∷ (
      HostProtocolMessage.bluetooth (
          Bluetooth.status
            (record { connection = ConnectionStatus.connected (pos 127); queue_overflow = false })),
      0 ∷ 8 ∷ 2 ∷ 127 ∷ 0 ∷ [],
    )
    ∷ (
      HostProtocolMessage.bluetooth (
          Bluetooth.status (record {
            connection = ConnectionStatus.connected (negsuc 39);
            queue_overflow = true;
          })),
      0 ∷ 8 ∷ 2 ∷ 216 ∷ 1 ∷ [],
    )
    ∷ (
      HostProtocolMessage.bluetooth (
          Bluetooth.status
            (record { connection = ConnectionStatus.disabled; queue_overflow = false })),
      0 ∷ 8 ∷ 0 ∷ 0 ∷ [],
    )
    ∷ (
      HostProtocolMessage.bluetooth (
          Bluetooth.status (record {
            connection = ConnectionStatus.waiting_for_connection;
            queue_overflow = false;
          })),
      0 ∷ 8 ∷ 1 ∷ 0 ∷ [],
    )
    ∷ (
      HostProtocolMessage.bluetooth (Bluetooth.send_data (replicate app_mtu 0xFF)),
      0 ∷ 9 ∷ 244 ∷ 1 ∷ replicate 244 255,
    )
    ∷ (
      HostProtocolMessage.bluetooth (Bluetooth.send_data_response SendDataResponse.sent),
      0 ∷ 10 ∷ 0 ∷ [],
    )
    ∷ (HostProtocolMessage.bluetooth Bluetooth.get_received_data, 0 ∷ 11 ∷ [])
    ∷ (
      HostProtocolMessage.bluetooth (Bluetooth.received_data (replicate app_mtu 0xFF)),
      0 ∷ 12 ∷ 244 ∷ 1 ∷ replicate 244 255,
    )
    ∷ (HostProtocolMessage.bluetooth Bluetooth.no_received_data, 0 ∷ 13 ∷ [])
    ∷ (HostProtocolMessage.bluetooth Bluetooth.get_firmware_version, 0 ∷ 14 ∷ [])
    ∷ (
      HostProtocolMessage.bluetooth
          (Bluetooth.ack_firmware_version (b'v' ∷ b'1' ∷ b'.' ∷ b'2' ∷ b'.' ∷ b'3' ∷ [])),
      0 ∷ 15 ∷ 6 ∷ 118 ∷ 49 ∷ 46 ∷ 50 ∷ 46 ∷ 51 ∷ [],
    )
    ∷ (HostProtocolMessage.bluetooth Bluetooth.get_bt_address, 0 ∷ 16 ∷ [])
    ∷ (
      HostProtocolMessage.bluetooth (Bluetooth.ack_bt_address (replicate 6 0xFF)),
      0 ∷ 17 ∷ replicate 6 255,
    )
    ∷ (
      HostProtocolMessage.bluetooth (Bluetooth.set_tx_power TxPower.positive4_dbm),
      0 ∷ 18 ∷ 8 ∷ [],
    )
    ∷ (HostProtocolMessage.bluetooth Bluetooth.ack_tx_power, 0 ∷ 19 ∷ [])
    ∷ (HostProtocolMessage.bluetooth Bluetooth.get_device_id, 0 ∷ 20 ∷ [])
    ∷ (
      HostProtocolMessage.bluetooth (Bluetooth.ack_device_id (replicate 8 0xFF)),
      0 ∷ 21 ∷ replicate 8 255,
    )
    ∷ (HostProtocolMessage.bluetooth Bluetooth.disconnect, 0 ∷ 22 ∷ [])
    ∷ (HostProtocolMessage.bluetooth Bluetooth.ack_disconnect, 0 ∷ 23 ∷ [])
    ∷ (
      HostProtocolMessage.bluetooth (
          Bluetooth.set_device_name (
            b'P' ∷ b'a' ∷ b's' ∷ b's' ∷ b'p' ∷ b'o' ∷ b'r' ∷ b't' ∷ b' ' ∷ b'P' ∷ b'r' ∷ b'i' ∷ b'm'
            ∷ b'e' ∷ b' ' ∷ b'(' ∷ b'1' ∷ b'2' ∷ b'A' ∷ b'B' ∷ b')' ∷ [])),
      0 ∷ 24 ∷ 21 ∷ 80 ∷ 97 ∷ 115 ∷ 115 ∷ 112 ∷ 111 ∷ 114 ∷ 116 ∷ 32 ∷ 80 ∷ 114 ∷ 105 ∷ 109 ∷ 101
          ∷ 32 ∷ 40 ∷ 49 ∷ 50 ∷ 65 ∷ 66 ∷ 41 ∷ [],
    )
    ∷ (HostProtocolMessage.bluetooth Bluetooth.ack_set_device_name, 0 ∷ 25 ∷ [])
    ∷ []
