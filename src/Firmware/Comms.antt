-- ===== src/Firmware/Comms.antt =====
-- firmware/src/comms.rs: the handling of a message from the MPU.
pub mod Replies
pub mod Answered
use prime_ble_firmware.Base.{
  ℕ, Bool, true, false, List, [], ◌∷◌, Option, none, some, ◌==◌, if◌then◌else◌, map,
}
use prime_ble_firmware.Base.Int.{ℤ, negsuc}
use prime_ble_firmware.Protocol.{
  Bytes, Bluetooth, BluetoothStatus, Bootloader, ConnectionStatus, HostProtocolMessage, State,
  SendDataResponse, PostcardError, AdvChan, TxPower, i8_from_tx_power, adv_chan_all,
}
use prime_ble_firmware.Protocol.Frame.{ack_msg_send}
use prime_ble_firmware.Boot.Secret.{hmac_challenge_response}
use prime_ble_firmware.Firmware.Kernel.{Kernel, World, CommsContext, Level}

-- `env!("CARGO_PKG_VERSION")`: "4.0.0" in firmware/Cargo.toml.
abbrev pub cargo_pkg_version : Bytes
cargo_pkg_version = b'4' ∷ b'.' ∷ b'0' ∷ b'.' ∷ b'0' ∷ []

-- `i8::MIN`.
abbrev pub i8_min : ℤ
i8_min = negsuc 127

-- How the handling ends: with a response, or in a reset.
pub data Answer : Type 0 where
  answers : HostProtocolMessage → Answer
  resets : Answer

-- `pin.set_high()` and `pin.set_low()` on the pin, if it has been set up.
abbrev pub set_level : Level → Option Level → Option Level
set_level l none = none
set_level l (some _) = some l

-- `rssi().unwrap_or(i8::MIN)`.
abbrev pub rssi_or_min : Option ℤ → ℤ
rssi_or_min none = i8_min
rssi_or_min (some r) = r

module _ (k : Kernel) where
  unfoldable pub get_state : World k → State
  get_state w = if w.bt_state_copy then State.enabled else State.disabled

  abbrev bluetooth : Bluetooth → Answer
  bluetooth m = answers (HostProtocolMessage.bluetooth m)

  -- `connection.disconnect()` if there is a connection; its result is dropped.
  hang_up : Option k.radio.Connection → World k → World k
  hang_up none w = w
  hang_up (some c) w = record w { air = (k.radio.disconnect w.air c).0 }

  connection_status : Option k.radio.Connection → World k → ConnectionStatus
  connection_status (some c) w = ConnectionStatus.connected (rssi_or_min (k.radio.rssi w.air c))
  connection_status none w =
      if w.bt_state_copy then ConnectionStatus.waiting_for_connection else ConnectionStatus.disabled

  hand_over : Option (Bytes × k.data_rx.Queue) → World k → World k × Answer
  hand_over (some (packet, rest)) w =
      (record w { bt_data_rx = rest }, bluetooth (Bluetooth.received_data packet))
  hand_over none w = (
    record w { irq_out_pin = set_level Level.high w.irq_out_pin },
    bluetooth Bluetooth.no_received_data,
  )

  -- `server.send_notify`, on the connection if there is one.
  notify : Option k.radio.Connection → CommsContext → Bytes → World k → World k × Answer
  notify none context packet w =
      (w, bluetooth (Bluetooth.send_data_response SendDataResponse.buffer_full))
  notify (some c) context packet w =
      let done = k.radio.notify_value w.air c context.tx_value_handle packet in
      (
        record w { air = done.0 },
        bluetooth (
            Bluetooth.send_data_response
              (if done.1 then SendDataResponse.sent else SendDataResponse.buffer_full)),
      )

  unfoldable pub bluetooth_handler : Bluetooth → CommsContext → World k → World k × Answer
  unfolding get_state hang_up connection_status hand_over notify
  bluetooth_handler (Bluetooth.disable_channels chan) context w =
      if chan.bits == adv_chan_all then (w, bluetooth Bluetooth.nack_disable_channels) else (
        record w {
          bt_adv_chan = chan.bits;
          bt_adv_changed = k.adv_changed.signal w.bt_adv_changed tt;
        },
        bluetooth Bluetooth.ack_disable_channels,
      )
  bluetooth_handler Bluetooth.enable context w = (
    record w { bt_enable = k.enable.signal w.bt_enable true; bt_state_copy = true },
    bluetooth Bluetooth.ack_enable,
  )
  bluetooth_handler Bluetooth.disable context w =
      let w' = hang_up w.connection w in
      (
        record w' { bt_enable = k.enable.signal w.bt_enable false; bt_state_copy = false },
        bluetooth Bluetooth.ack_disable,
      )
  bluetooth_handler Bluetooth.get_status context w = (
    record w { bt_data_rx_overflow = false },
    bluetooth (
        Bluetooth.status (record {
          connection = connection_status w.connection w;
          queue_overflow = w.bt_data_rx_overflow;
        })),
  )
  bluetooth_handler Bluetooth.get_firmware_version context w =
      (w, bluetooth (Bluetooth.ack_firmware_version cargo_pkg_version))
  bluetooth_handler Bluetooth.get_received_data context w =
      hand_over (k.data_rx.try_receive w.bt_data_rx) w
  bluetooth_handler (Bluetooth.send_data packet) context w = notify w.connection context packet w
  bluetooth_handler Bluetooth.get_bt_address context w =
      (w, bluetooth (Bluetooth.ack_bt_address context.address))
  bluetooth_handler (Bluetooth.set_tx_power power) context w = (
    record w {
      tx_pwr_value = i8_from_tx_power power;
      bt_adv_changed = k.adv_changed.signal w.bt_adv_changed tt;
    },
    bluetooth Bluetooth.ack_tx_power,
  )
  bluetooth_handler Bluetooth.get_device_id context w =
      (w, bluetooth (Bluetooth.ack_device_id context.device_id))
  bluetooth_handler Bluetooth.disconnect context w =
      (hang_up w.connection w, bluetooth Bluetooth.ack_disconnect)
  bluetooth_handler (Bluetooth.set_device_name name) context w = (
    record w { device_name = name; bt_adv_changed = k.adv_changed.signal w.bt_adv_changed tt },
    bluetooth Bluetooth.ack_set_device_name,
  )
  bluetooth_handler (Bluetooth.echo msg) context w = (w, bluetooth (Bluetooth.echo_response msg))
  bluetooth_handler _ context w =
      (w, answers (HostProtocolMessage.inappropriate_message (get_state w)))

  unfoldable pub host_protocol_handler :
      HostProtocolMessage → CommsContext → World k → World k × Answer
  unfolding get_state bluetooth_handler
  host_protocol_handler (HostProtocolMessage.bluetooth bluetooth_msg) context w =
      bluetooth_handler bluetooth_msg context w
  host_protocol_handler HostProtocolMessage.reset context w = (w, resets)
  host_protocol_handler (HostProtocolMessage.challenge_request nonce) context w =
      (w, answers (hmac_challenge_response k.uicr k.digests w.regs nonce))
  host_protocol_handler HostProtocolMessage.get_state context w =
      (w, answers (HostProtocolMessage.ack_state (get_state w)))
  host_protocol_handler _ context w =
      (w, answers (HostProtocolMessage.inappropriate_message (get_state w)))

  -- One round of `comms_task`: what the SPI read gave, or nothing if it failed.
  pub data CommsTurn : Type 0 where
    continues : Option Bytes → CommsTurn
    restarts : CommsTurn

  unfoldable pub finish : Answer → CommsTurn
  finish (answers m) = continues (ack_msg_send k.codec m)
  finish resets = restarts

  unfoldable pub respond : Option HostProtocolMessage → CommsContext → World k → World k × Answer
  respond (some req) context w = host_protocol_handler req context w
  respond none context w = (w, answers (HostProtocolMessage.postcard_error PostcardError.deser))

  unfoldable pub comms_round : Option Bytes → CommsContext → World k → World k × CommsTurn
  unfolding finish respond
  comms_round none context w = (w, continues none)
  comms_round (some buf) context w =
      let r = respond (k.codec.from_bytes buf) context w in (r.0, finish r.1)
