-- ===== src/Firmware/Setup.antt =====
-- The set-up of the clocks, the priorities and the pins by `main` of firmware/src/main.rs.
use prime_ble_firmware.Base.{
  ℕ, ◌≡◌, ◌≢◌, refl, true, false, Bool, List, [], ◌∷◌, all, ◌==◌, if◌then◌else◌, ◌||◌, arith,
}
use prime_ble_firmware.Firmware.Kernel.{Level}
use prime_ble_firmware.Boot.Setup.{Spi}
use prime_ble_firmware.Boot.Setup as Bootloader

-- `HfclkSource` and `LfclkSource`, as far as they are used.
pub data ClkSource : Type 0 where
  external_xtal : ClkSource

-- A priority is a number, the most urgent first.
pub record Peripherals : Type 0 where
  pub hfclk_source : ClkSource
  pub lfclk_source : ClkSource
  pub gpiote_interrupt_priority : ℕ
  pub time_interrupt_priority : ℕ
  pub spi_interrupt_priority : ℕ
  pub spi : Spi
  pub irq_out_pin : ℕ
  pub irq_out_level : Level

unfoldable pub peripherals : Peripherals
peripherals = record {
  hfclk_source = ClkSource.external_xtal;
  lfclk_source = ClkSource.external_xtal;
  gpiote_interrupt_priority = 2;
  time_interrupt_priority = 2;
  spi_interrupt_priority = 3;
  spi = record { cs = 18; sck = 16; miso = 14; mosi = 12; orc = 0x51 };
  irq_out_pin = 20;
  irq_out_level = Level.high;
}

-- Nordic keeps these priorities for the SoftDevice.
abbrev is_reserved : ℕ → Bool
is_reserved p = p == 0 || p == 1 || p == 4

abbrev none_reserved : List ℕ → Bool
none_reserved ps = all (λ p. if is_reserved p then false else true) ps

-- The firmware takes no priority of the SoftDevice. It uses the pins of the bootloader, so the MPU
-- need not know which of the two runs, and its byte of padding is another, so the MPU can tell.
pub peripherals-agree :
    (none_reserved (
        peripherals.gpiote_interrupt_priority ∷ peripherals.time_interrupt_priority
        ∷ peripherals.spi_interrupt_priority ∷ [])
      ≡ true)
    × (record peripherals.spi { orc = Bootloader.spi.orc } ≡ Bootloader.spi)
    × (peripherals.irq_out_pin ≡ Bootloader.irq_out_pin)
    × (peripherals.spi.orc ≢ Bootloader.spi.orc)
unfolding peripherals Bootloader.spi Bootloader.irq_out_pin
peripherals-agree = (refl, refl, refl, omega arith)
