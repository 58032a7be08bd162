-- ===== src/Boot/Setup.antt =====
-- The set-up of the pins by `main` of bootloader/src/main.rs.
use prime_ble_firmware.Base.{ℕ}

-- `Spis::new`: the pins of port 0, and the byte that is sent when nothing else is.
pub record Spi : Type 0 where
  pub cs : ℕ
  pub sck : ℕ
  pub miso : ℕ
  pub mosi : ℕ
  pub orc : ℕ

unfoldable pub spi : Spi
spi = record { cs = 18; sck = 16; miso = 14; mosi = 12; orc = 0x69 }

-- `_irq_out_pin`.
unfoldable pub irq_out_pin : ℕ
irq_out_pin = 20
