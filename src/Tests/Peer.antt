-- ===== src/Tests/Peer.antt =====
-- Queues, signals and a radio for the firmware that can be computed with, and its statics as they
-- are set up.
use prime_ble_firmware.Base.{
  ℕ, ◌+◌, ◌*◌, refl, ◌&&◌, leb, Bool, true, false, List, [], ◌∷◌, ◌++◌, Option, none, some, arith,
  ltb, if◌then◌else◌, length, get_or, ◌/◌, ◌%◌, ◌==◌,
}
use prime_ble_firmware.Base.Int.{ℤ, pos}
use prime_ble_firmware.Consts.{bt_max_num_pkt}
use prime_ble_firmware.Protocol.{Bytes, Bluetooth, HostProtocolMessage}
use prime_ble_firmware.Firmware.Kernel.{
  Channel, ChannelLaws, Signal, SignalLaws, Radio, AdvertisingLaws, Kernel, Level, World,
  CommsContext,
}
use prime_ble_firmware.Tests.Chip.{Cells, sim_uicr, sim_digests, sim_codec}

module _ (A : Type 0) where
  abbrev list_channel : (cap : ℕ) → Channel A cap
  list_channel cap = record {
    Queue = List A;
    items = λ q. q;
    try_send = λ q a. if ltb (length q) cap then some (q ++ a ∷ []) else none;
    try_receive = first;
  }
    where
      first : List A → Option (A × List A)
      first [] = none
      first (a ∷ q) = some (a, q)

  abbrev taken : Option A → Option (A × Option A)
  taken none = none
  taken (some a) = some (a, none)

  abbrev slot_signal : Signal A
  slot_signal = record { Slot = Option A; signal = λ x a. some a; reset = λ x. none; poll = taken }

  pub slot_signal_laws : SignalLaws slot_signal
  slot_signal_laws = record { poll-signal = λ x a. (none, refl); poll-reset = λ x. refl }

pub list_channel_laws : (cap : ℕ) → ChannelLaws (list_channel Bytes cap)
list_channel_laws cap = record {
  sent = λ q q' a e. ground arith;
  full = λ q a. ground arith;
  received = λ q q' a e. ground arith;
  empty = λ q e. ground arith;
}

-- A connection is its signal strength, if that can be read; a payload is its size.
abbrev sim_radio : Radio
sim_radio = record {
  Air = List Bytes;
  Payload = ℕ;
  builder = λ n. 0;
  flags = λ p fs. p + 3;
  services_128 = λ p uuids. p + 2 + 16 * length uuids;
  short_name = λ p name. p + 2 + length name;
  full_name = λ p name. p + 2 + length name;
  advertises = λ air p q interval mask power.
      leb p 31 && leb q 31 && (if get_or mask 4 0 / 32 % 8 == 7 then false else true);
  device_name_set = λ air name. air;
  set_conn_params = λ air c params. (air, true);
  data_length_update = λ air c params. (air, true);
  start_rssi = λ air c. air;
  Connection = Option ℤ;
  disconnect = λ air c. (air, true);
  rssi = λ air c. c;
  notify_value = λ air c handle packet. (air ++ packet ∷ [], true);
}

pub sim_radio_laws : AdvertisingLaws sim_radio
sim_radio_laws = record {
  size = λ p. p;
  size-builder = λ n. refl;
  size-full_name = λ p name. refl;
  scan_too_long = λ air p q interval mask power long. ground arith;
  all_masked = λ air p q interval mask power off. ground arith;
}

abbrev pub sim_kernel : Kernel
sim_kernel = record {
  data_rx = list_channel Bytes bt_max_num_pkt;
  enable = slot_signal Bool;
  adv_changed = slot_signal (Unit {0});
  radio = sim_radio;
  uicr = sim_uicr;
  digests = sim_digests;
  codec = sim_codec;
}

abbrev pub cells : Cells
cells = record { cell = λ i. 0xFFFFFFFF; writable = false }

-- As the statics are set up.
abbrev pub initial : World sim_kernel
initial = record {
  bt_enable = none;
  bt_adv_chan = 0;
  bt_data_rx = [];
  bt_data_rx_overflow = false;
  tx_pwr_value = pos 0;
  device_name = b'P' ∷ [];
  bt_adv_changed = none;
  connection = none;
  irq_out_pin = some Level.high;
  bt_state_copy = false;
  air = [];
  regs = cells;
}

abbrev pub context : CommsContext
context = record { address = []; device_id = []; tx_value_handle = 12 }

abbrev pub to_controller : Bluetooth → HostProtocolMessage
to_controller m = HostProtocolMessage.bluetooth m
