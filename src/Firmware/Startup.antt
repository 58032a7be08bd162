-- ===== src/Firmware/Startup.antt =====
-- `main` of firmware/src/main.rs up to the two tasks: the statics as it leaves them, and the context
-- of `comms_task`.
use prime_ble_firmware.Base.{
  ℕ, ◌+◌, ◌*◌, ◌<◌, ◌≡◌, refl, Bool, true, false, Option, List, [], ◌∷◌, ◌++◌, none, some, inl,
  arith,
}
use prime_ble_firmware.Base.Int.{pos}
use mathlib.Core.List.{reverse}
use prime_ble_firmware.Consts.{le_bytes, default_device_name, u32_mod}
use prime_ble_firmware.Protocol.{Bytes}
use prime_ble_firmware.Firmware.Kernel.{Kernel, World, CommsContext, Level, ChannelLaws}
use prime_ble_firmware.Firmware.Nus.Queue.{Event, event, run_events, IsSignalled, event-IsSignalled}

-- The two words of the FICR as one number, high word first, and its bytes, low byte first.
unfoldable pub device_id_bytes : ℕ → ℕ → Bytes
device_id_bytes device_id_low device_id_high = le_bytes 8 (device_id_high * u32_mod + device_id_low)

-- The SoftDevice gives the address low byte first.
unfoldable pub comms_context : Bytes → ℕ → ℕ → ℕ → CommsContext
unfolding device_id_bytes
comms_context address device_id_low device_id_high tx_value_handle = record {
  address = reverse address;
  device_id = device_id_bytes device_id_low device_id_high;
  tx_value_handle = tx_value_handle;
}

-- `Signal::new()` and `Channel::new()`, with the radio and the registers as they are found.
pub record Fresh (k : Kernel) : Type 0 where
  pub enable : k.enable.Slot
  pub data_rx : k.data_rx.Queue
  pub adv_changed : k.adv_changed.Slot
  pub air : k.radio.Air
  pub regs : k.uicr.Regs

unfoldable pub initial_world : (k : Kernel) → Fresh k → World k
initial_world k fresh = record {
  bt_enable = fresh.enable;
  bt_adv_chan = 0;
  bt_data_rx = fresh.data_rx;
  bt_data_rx_overflow = false;
  tx_pwr_value = pos 0;
  device_name = default_device_name;
  bt_adv_changed = fresh.adv_changed;
  connection = none;
  irq_out_pin = some Level.high;
  bt_state_copy = false;
  air = fresh.air;
  regs = fresh.regs;
}

-- `main` up to the two tasks: `none` is a panic, if the server is not created, or if the task of the
-- SoftDevice cannot be spawned.
unfoldable pub start_up :
    (k : Kernel) → Fresh k → Bytes → ℕ → ℕ → Option ℕ → Bool → Option (World k × CommsContext)
unfolding initial_world comms_context
start_up k fresh address low high none spawned = none
start_up k fresh address low high (some tx_value_handle) false = none
start_up k fresh address low high (some tx_value_handle) true =
    some (initial_world k fresh, comms_context address low high tx_value_handle)

-- The bytes of the device id are those of the low word, then those of the high word.
pub device_id_bytes-append :
    (device_id_low device_id_high : ℕ)
    → device_id_low < u32_mod
    → device_id_bytes device_id_low device_id_high
      ≡ le_bytes 4 device_id_low ++ le_bytes 4 device_id_high
unfolding device_id_bytes
device_id_bytes-append device_id_low device_id_high lt = ground arith

module _ (k : Kernel) (context : CommsContext) (laws : ChannelLaws k.data_rx) where
  run_events-IsSignalled :
      (es : List Event) (w : World k)
      → IsSignalled k context laws w
      → IsSignalled k context laws (run_events k context es w).0
  unfolding run_events
  run_events-IsSignalled [] w v = v
  run_events-IsSignalled (e ∷ es) w v =
      run_events-IsSignalled es (event k context e w).0 (event-IsSignalled k context laws e w v)

  -- From the start-up with an empty channel on, whatever the peer and the MPU do, at most sixteen
  -- packets wait for the MPU, and the pin is low while some wait.
  pub initial_world-IsSignalled :
      (fresh : Fresh k) (es : List Event)
      → k.data_rx.items fresh.data_rx ≡ []
      → IsSignalled k context laws (run_events k context es (initial_world k fresh)).0
  unfolding initial_world
  initial_world-IsSignalled fresh es none_yet =
      run_events-IsSignalled es (initial_world k fresh)
        (record { bounded = ground arith; set_up = (Level.high, refl); signalled = inl none_yet })
