-- ===== src/Firmware/Kernel.antt =====
-- What firmware/src takes from embassy_sync and nrf_softdevice, as parameters, and the statics of
-- firmware/src/main.rs. Laws are the documented behaviour that a theorem relies on.
use prime_ble_firmware.Base.{
  ℕ, ◌+◌, ◌/◌, ◌%◌, ◌<◌, ◌≤◌, ◌≡◌, ◌↔◌, Bool, false, get_or, List, [], ◌∷◌, ◌++◌, Option, none,
  some, length,
}
use prime_ble_firmware.Base.Int.{ℤ}
use prime_ble_firmware.Consts.{bt_max_num_pkt}
use prime_ble_firmware.Protocol.{Bytes}
use prime_ble_firmware.Platform.{Uicr, Digests, Codec}

-- `Channel<_, A, N>`, and what it holds, oldest first. `try_send` fails on a full channel,
-- `try_receive` on an empty one.
pub record Channel (A : Type 0) (cap : ℕ) : Type 1 where
  pub Queue : Type 0
  pub items : Queue → List A
  pub try_send : Queue → A → Option Queue
  pub try_receive : Queue → Option (A × Queue)

pub record ChannelLaws {A : Type 0} {cap : ℕ} (c : Channel A cap) : Type 0 where
  pub sent : (q q' : c.Queue) (a : A) → c.try_send q a ≡ some q' → c.items q' ≡ c.items q ++ a ∷ []
  pub full : (q : c.Queue) (a : A) → (c.try_send q a ≡ none) ↔ (cap ≤ length (c.items q))
  pub received :
      (q q' : c.Queue) (a : A) → c.try_receive q ≡ some (a, q') → c.items q ≡ a ∷ c.items q'
  pub empty : (q : c.Queue) → c.try_receive q ≡ none → c.items q ≡ []

-- `Signal<_, A>`: `poll` is one poll of `wait`, which takes the value that is there.
pub record Signal (A : Type 0) : Type 1 where
  pub Slot : Type 0
  pub signal : Slot → A → Slot
  pub reset : Slot → Slot
  pub poll : Slot → Option (A × Slot)

pub record SignalLaws {A : Type 0} (s : Signal A) : Type 0 where
  pub poll-signal : (x : s.Slot) (a : A) → (y : s.Slot) × (s.poll (s.signal x a) ≡ some (a, y))
  pub poll-reset : (x : s.Slot) → s.poll (s.reset x) ≡ none

-- `nrf_softdevice::ble::advertisement_builder::Flag`, as far as it is used.
pub data Flag : Type 0 where
  general_discovery le_only : Flag

-- `nrf_softdevice::ble::TxPower`, as far as it is used.
pub data RadioPower : Type 0 where
  minus40_dbm minus20_dbm minus16_dbm minus12_dbm minus8_dbm minus4_dbm : RadioPower
  zero_dbm plus3_dbm plus4_dbm : RadioPower

-- `ble_gap_conn_params_t`: the timeout in units of 10 ms, the intervals in units of 1.25 ms.
pub record ConnParams : Type 0 where
  pub conn_sup_timeout : ℕ
  pub max_conn_interval : ℕ
  pub min_conn_interval : ℕ
  pub slave_latency : ℕ

-- `ble_gap_data_length_params_t`.
pub record DataLengthParams : Type 0 where
  pub max_tx_octets : ℕ
  pub max_rx_octets : ℕ
  pub max_tx_time_us : ℕ
  pub max_rx_time_us : ℕ

-- The SoftDevice with its advertisements and its side of a `Connection`. The Booleans say whether a
-- call returned `Ok`.
pub record Radio : Type 1 where
  pub Air : Type 0
  -- An advertisement builder, from its capacity on, and what it has built.
  pub Payload : Type 0
  pub builder : ℕ → Payload
  pub flags : Payload → List Flag → Payload
  pub services_128 : Payload → List Bytes → Payload
  pub short_name : Payload → Bytes → Payload
  pub full_name : Payload → Bytes → Payload
  -- whether `advertise_connectable` returns a connection: advertising data, scan data, interval,
  -- channel mask, power
  pub advertises : Air → Payload → Payload → ℕ → List ℕ → RadioPower → Bool
  pub device_name_set : Air → Bytes → Air
  pub Connection : Type 0
  pub set_conn_params : Air → Connection → ConnParams → Air × Bool
  pub data_length_update : Air → Connection → DataLengthParams → Air × Bool
  pub start_rssi : Air → Connection → Air
  pub disconnect : Air → Connection → Air × Bool
  pub rssi : Air → Connection → Option ℤ
  -- value handle, bytes
  pub notify_value : Air → Connection → ℕ → Bytes → Air × Bool

-- The Bluetooth specification and the header of the SoftDevice: a structure of an advertisement is
-- its contents behind a length and a type; legacy scan data have at most 31 bytes; and at least one
-- of the three advertising channels, the upper bits of the last byte of the mask, must be left on.
pub record AdvertisingLaws (r : Radio) : Type 0 where
  pub size : r.Payload → ℕ
  pub size-builder : (n : ℕ) → size (r.builder n) ≡ 0
  pub size-full_name :
      (p : r.Payload) (name : Bytes) → size (r.full_name p name) ≡ size p + 2 + length name
  pub scan_too_long :
      (air : r.Air) (p q : r.Payload) (interval : ℕ) (mask : List ℕ) (power : RadioPower)
      → 31 < size q
      → r.advertises air p q interval mask power ≡ false
  pub all_masked :
      (air : r.Air) (p q : r.Payload) (interval : ℕ) (mask : List ℕ) (power : RadioPower)
      → get_or mask 4 0 / 32 % 8 ≡ 7
      → r.advertises air p q interval mask power ≡ false

pub record Kernel : Type 1 where
  pub data_rx : Channel Bytes bt_max_num_pkt
  pub enable : Signal Bool
  pub adv_changed : Signal (Unit {0})
  pub radio : Radio
  pub uicr : Uicr
  pub digests : Digests
  pub codec : Codec

pub data Level : Type 0 where
  low high : Level

-- The statics of main.rs and the one of comms.rs, with the radio and the registers beside them.
-- The locks are not held across a wait but by the reader of a running connection, so a static
-- behind a lock is its value.
pub record World (k : Kernel) : Type 0 where
  pub bt_enable : k.enable.Slot
  pub bt_adv_chan : ℕ
  pub bt_data_rx : k.data_rx.Queue
  pub bt_data_rx_overflow : Bool
  pub tx_pwr_value : ℤ
  pub device_name : Bytes
  pub bt_adv_changed : k.adv_changed.Slot
  pub connection : Option k.radio.Connection
  pub irq_out_pin : Option Level
  pub bt_state_copy : Bool
  pub air : k.radio.Air
  pub regs : k.uicr.Regs

-- `CommsContext`, with the handle of the server's characteristic in place of the server.
pub record CommsContext : Type 0 where
  pub address : Bytes
  pub device_id : Bytes
  pub tx_value_handle : ℕ
