-- ===== src/Firmware/Server.antt =====
-- firmware/src/server.rs: the task that advertises and serves a connection, as steps between the
-- points at which it waits. What it waits for comes from the radio or from the other task.
pub mod Advertising
pub mod Panics
pub mod Connection
pub mod Registers
use prime_ble_firmware.Base.{
  ℕ, ◌+◌, ◌*◌, ◌/◌, ◌≡◌, ◌≢◌, Bool, true, false, List, [], ◌∷◌, Option, none, some, ◌==◌,
  if◌then◌else◌,
}
use prime_ble_firmware.Base.Int.{ℤ, pos, negsuc}
use prime_ble_firmware.Protocol.{Bytes, HostProtocolMessage}
use prime_ble_firmware.Consts.{max_device_name_len, services_list, short_name}
use prime_ble_firmware.Firmware.Kernel.{
  Kernel, World, CommsContext, Flag, ConnParams, DataLengthParams, RadioPower,
}
use prime_ble_firmware.Firmware.Comms.{host_protocol_handler}
use prime_ble_firmware.Firmware.Nus.{NusEvent, nus_handle}

-- The `match` on the value of `TX_PWR_VALUE`.
unfoldable pub radio_power : ℤ → RadioPower
radio_power (negsuc n) =
    if n == 39
    then RadioPower.minus40_dbm
    else if n == 19
    then RadioPower.minus20_dbm
    else if n == 15
    then RadioPower.minus16_dbm
    else if n == 11
    then RadioPower.minus12_dbm
    else if n == 7
    then RadioPower.minus8_dbm
    else if n == 3
    then RadioPower.minus4_dbm
    else RadioPower.zero_dbm
radio_power (pos n) =
    if n == 3
    then RadioPower.plus3_dbm
    else if n == 4
    then RadioPower.plus4_dbm
    else RadioPower.zero_dbm

-- Connection intervals come in units of 1.25 ms: `ci_ms!`.
abbrev pub ci_ms : ℕ → ℕ
ci_ms ms = ms * 1000 / 1250

-- A supervision timeout of 5 s, and intervals between 5 ms and 50 ms.
abbrev pub gap_conn_param : ConnParams
gap_conn_param = record {
  conn_sup_timeout = 500;
  max_conn_interval = ci_ms 50;
  min_conn_interval = ci_ms 5;
  slave_latency = 0;
}

abbrev pub data_length : DataLengthParams
data_length = record {
  max_tx_octets = 251;
  max_rx_octets = 251;
  max_tx_time_us = 0;
  max_rx_time_us = 0;
}

abbrev pub max_advertisement_len : ℕ
max_advertisement_len = max_device_name_len + 2

module _ (k : Kernel) where
  -- `ADV_DATA`, by the builder for legacy advertisements.
  unfoldable pub static_adv_data : k.radio.Payload
  static_adv_data =
      k.radio.short_name
        (k.radio.services_128
          (k.radio.flags (k.radio.builder 31) (Flag.general_discovery ∷ Flag.le_only ∷ []))
          services_list)
        short_name

  -- What one advertisement goes out with.
  pub record Advertisement : Type 0 where
    pub adv_data : k.radio.Payload
    pub scan_data : k.radio.Payload
    pub interval : ℕ
    pub channel_mask : List ℕ
    pub tx_power : RadioPower

  -- Whether `advertise_connectable` takes an advertisement, in a state of the SoftDevice.
  abbrev pub is_taken : k.radio.Air → Advertisement → Bool
  is_taken air a =
      k.radio.advertises air a.adv_data a.scan_data a.interval a.channel_mask a.tx_power

  unfoldable pub advertisement : World k → Advertisement
  advertisement w = record {
    adv_data = static_adv_data;
    scan_data = k.radio.full_name (k.radio.builder max_advertisement_len) w.device_name;
    interval = 75;
    channel_mask = 0 ∷ 0 ∷ 0 ∷ 0 ∷ w.bt_adv_chan ∷ [];
    tx_power = radio_power w.tx_pwr_value;
  }

  -- Where the task waits: for `BT_ENABLE`; for a peer or `BT_ADV_CHANGED`; for the end of a
  -- connection. In the last two it waits for `BT_ENABLE` too. After a panic nothing goes on.
  pub data Phase : Type 0 where
    waiting : Phase
    advertising : Advertisement → Phase
    serving : k.radio.Connection → Phase
    panicked : Phase

  pub record Task : Type 0 where
    pub world : World k
    pub phase : Phase

  -- The top of the loop of `run_bluetooth_inner`.
  unfoldable pub advertise : World k → Task
  advertise w = record {
    world = record w {
      bt_adv_changed = k.adv_changed.reset w.bt_adv_changed;
      air = k.radio.device_name_set w.air w.device_name;
    };
    phase = advertising (advertisement w);
  }

  -- The requests for the parameters of the connection; what they return is only logged.
  unfoldable pub tune : k.radio.Connection → k.radio.Air → k.radio.Air
  tune c air =
      let asked = (k.radio.set_conn_params air c gap_conn_param).0 in
      k.radio.start_rssi (k.radio.data_length_update asked c data_length).0 c

  -- A peer has connected.
  unfoldable pub connect : k.radio.Connection → World k → Task
  unfolding tune
  connect c w = record {
    world = record w { connection = some c; air = tune c w.air };
    phase = serving c;
  }

  -- `gatt_server::run` has returned.
  unfoldable pub served : World k → Task
  unfolding advertise
  served w = advertise (record w { connection = none })

  -- `check_stopped_fut` is done, and the other future is dropped where it waits.
  unfoldable pub stop : k.enable.Slot → World k → Task
  stop slot w = record { world = record w { bt_enable = slot }; phase = waiting }

  pub data Step (context : CommsContext) (t u : Task) : Type 0 where
    enabled :
        (slot : k.enable.Slot)
        → t.phase ≡ waiting
        → k.enable.poll t.world.bt_enable ≡ some (true, slot)
        → u ≡ advertise (record t.world { bt_enable = slot })
        → Step context t u
    still_disabled :
        (slot : k.enable.Slot)
        → t.phase ≡ waiting
        → k.enable.poll t.world.bt_enable ≡ some (false, slot)
        → u ≡ record t { world = record t.world { bt_enable = slot } }
        → Step context t u
    changed :
        (a : Advertisement) (slot : k.adv_changed.Slot)
        → t.phase ≡ advertising a
        → k.adv_changed.poll t.world.bt_adv_changed ≡ some (tt, slot)
        → u ≡ advertise (record t.world { bt_adv_changed = slot })
        → Step context t u
    -- `unwrap!(conn, "Advertise failed")`
    advertise_failed :
        (a : Advertisement)
        → t.phase ≡ advertising a
        → is_taken t.world.air a ≡ false
        → u ≡ record t { phase = panicked }
        → Step context t u
    connected :
        (a : Advertisement) (c : k.radio.Connection)
        → t.phase ≡ advertising a
        → is_taken t.world.air a ≡ true
        → u ≡ connect c t.world
        → Step context t u
    disconnected :
        (c : k.radio.Connection) → t.phase ≡ serving c → u ≡ served t.world → Step context t u
    stopped :
        (slot : k.enable.Slot)
        → t.phase ≢ waiting
        → t.phase ≢ panicked
        → k.enable.poll t.world.bt_enable ≡ some (false, slot)
        → u ≡ stop slot t.world
        → Step context t u
    still_enabled :
        (slot : k.enable.Slot)
        → t.phase ≢ waiting
        → t.phase ≢ panicked
        → k.enable.poll t.world.bt_enable ≡ some (true, slot)
        → u ≡ record t { world = record t.world { bt_enable = slot } }
        → Step context t u
    -- The other task, and a write of the peer.
    message :
        (m : HostProtocolMessage)
        → t.phase ≢ panicked
        → u ≡ record t { world = (host_protocol_handler k m context t.world).0 }
        → Step context t u
    written :
        (c : k.radio.Connection) (e : NusEvent)
        → t.phase ≡ serving c
        → u ≡ record t { world = nus_handle k true e t.world }
        → Step context t u

  pub data Steps (context : CommsContext) (t : Task) : Task → Type 0 where
    here : Steps context t t
    next : {u v : Task} → Steps context t u → Step context u v → Steps context t v
