-- ===== src/Firmware/Nus.antt =====
-- firmware/src/nus.rs: what the Nordic UART service does with a write of the peer.
pub mod Queue
use prime_ble_firmware.Base.{ℕ, Bool, true, false, Option, none, some, if◌then◌else◌}
use prime_ble_firmware.Protocol.{Bytes}
use prime_ble_firmware.Firmware.Kernel.{Kernel, World, Level}
use prime_ble_firmware.Firmware.Comms.{set_level}

-- The characteristic that is written without a response, and whose write raises `RxWrite`.
abbrev pub rx_uuid : ℕ
rx_uuid = 0x6E400002B5A3F393E0A9E50E24DCCA9E

pub data NusEvent : Type 0 where
  -- notifications
  tx_cccd_write : Bool → NusEvent
  rx_write : Bytes → NusEvent

module _ (k : Kernel) where
  enqueue : Option k.data_rx.Queue → World k → World k
  enqueue none w = record w { bt_data_rx_overflow = true }
  enqueue (some queue) w = record w { bt_data_rx = queue }

  -- `pin_free` says whether `IRQ_OUT_PIN.try_lock()` gets the lock.
  unfoldable pub nus_handle : Bool → NusEvent → World k → World k
  unfolding enqueue
  nus_handle pin_free (NusEvent.tx_cccd_write notifications) w = w
  nus_handle pin_free (NusEvent.rx_write packet) w =
      let w' = enqueue (k.data_rx.try_send w.bt_data_rx packet) w in
      if pin_free then record w' { irq_out_pin = set_level Level.low w.irq_out_pin } else w'
