-- ===== src/Device/Flash.antt =====
-- What of the flash can change over the life of the chip.
use prime_ble_firmware.Base.{ℕ, ◌/◌, ◌≤◌, ◌<◌, ◌≡◌, refl, ◌∙◌, ◌⊎◌, inl, inr, true, arith}
use prime_ble_firmware.Consts.{base_bootloader_addr, flash_page, uicr_seal_index}
use prime_ble_firmware.Platform.{NorFlash, NorFlashRange, UicrLaws, MicroEcc, Cosign}
use prime_ble_firmware.Boot.Protect.{Bprot, bprot_reset}
use prime_ble_firmware.Boot.Protect.Coverage.{is_protected, flash_end, mbr_bootloader_covers}
use prime_ble_firmware.Boot.Protect.Ignored.{
  IsGuarded, Nvmc, controlled, BprotLaws, controlled-IsGuarded,
}
use prime_ble_firmware.Boot.Session.{start}
use prime_ble_firmware.Boot.Session.Guarded.{round_protected}
use prime_ble_firmware.Boot.Session.Reach.{DecodeLaws}
use prime_ble_firmware.Boot.Session.Invariant.{IsSeal}
use prime_ble_firmware.Firmware.Kernel.{Kernel}
use prime_ble_firmware.Device.{board, Device, Step, Steps, mem_of, reboot, launched, powered}
use prime_ble_firmware.Device.Life.{Live, powered-Live, Steps-Live, Steps-fixed}

-- Neither in a page of the application nor past the end of the flash.
abbrev pub IsOutside : ℕ → Type 0
IsOutside a = (a < 110592) ⊎ ((base_bootloader_addr ≤ a) × (a < flash_end))

module _ (flash : NorFlash) (ecc : MicroEcc) (cosign : Cosign) (k : Kernel) (enabled : Bprot)
    (guarded : IsGuarded flash enabled) (a : ℕ)
    (on : is_protected (a / flash_page) enabled ≡ true) where
  Step-protected :
      {d e : Device flash ecc cosign k}
      → Step flash ecc cosign k d e
      → flash.byte (mem_of flash ecc cosign k e) a ≡ flash.byte (mem_of flash ecc cosign k d) a
  unfolding mem_of reboot launched start
  Step-protected (Step.stays {s} read frame n h) =
      round_protected (board flash ecc cosign k) enabled guarded a on read s
  Step-protected (Step.launches {s} read frame entry fresh context h) =
      round_protected (board flash ecc cosign k) enabled guarded a on read s
  Step-protected (Step.restarts {s} read h) =
      round_protected (board flash ecc cosign k) enabled guarded a on read s
  Step-protected (Step.works step) = refl
  Step-protected (Step.firmware_restarts read live h) = refl
  Step-protected Step.power_cycle = refl

  Steps-protected :
      {d e : Device flash ecc cosign k}
      → Steps flash ecc cosign k d e
      → flash.byte (mem_of flash ecc cosign k e) a ≡ flash.byte (mem_of flash ecc cosign k d) a
  Steps-protected Steps.here = refl
  Steps-protected (Steps.next steps step) = Step-protected step ∙ Steps-protected steps

module _ (nvmc : Nvmc) (ecc : MicroEcc) (cosign : Cosign) (k : Kernel) (m : nvmc.Mem)
    (regs : k.uicr.Regs) where
  -- The protection with which the bootloader comes to its loop, and the flash under it.
  abbrev pub started : Bprot
  started = (start (board (controlled nvmc bprot_reset) ecc cosign k) m regs).bprot

  abbrev pub flash : NorFlash
  flash = controlled nvmc started

  -- The flash goes by the protection that the bootloader has.
  abbrev pub IsInForce : Device flash ecc cosign k → Type 0
  IsInForce (Device.booting s) = s.bprot ≡ started
  IsInForce (Device.running m context t) = Unit {0}

  Live-IsInForce : (e : Device flash ecc cosign k) → Live flash ecc cosign k m e → IsInForce e
  unfolding start
  Live-IsInForce (Device.booting s) v = v.bprot
  Live-IsInForce (Device.running m context t) v = tt

  upper_byte :
      BprotLaws nvmc
      → {e : Device flash ecc cosign k} (a : ℕ)
      → Steps flash ecc cosign k (powered flash ecc cosign k m regs) e
      → base_bootloader_addr ≤ a
      → a < flash_end
      → flash.byte (mem_of flash ecc cosign k e) a ≡ nvmc.byte m a
  unfolding mem_of start
  upper_byte bprot_laws a steps from to =
      Steps-protected flash ecc cosign k started (controlled-IsGuarded nvmc started bprot_laws) a
        (ground (arith, mbr_bootloader_covers a to)) steps

  -- From a reset that finds an erased, a sealed or a wiped seal on, through any launches, resets and
  -- power cycles, on a flash whose protected pages no write or erase changes, with the protection
  -- that the bootloader sets up at its start: every byte outside of the application's pages is
  -- what it was at the first reset, and as long as the bootloader runs that protection is the one
  -- it has set up.
  pub Steps-outside :
      (bprot_laws : BprotLaws nvmc) (flash_laws : NorFlashRange flash) (uicr_laws : UicrLaws k.uicr)
      (decode_laws : DecodeLaws k.codec)
      → IsSeal (k.uicr.customer regs uicr_seal_index)
      → {e : Device flash ecc cosign k} (a : ℕ)
      → Steps flash ecc cosign k (powered flash ecc cosign k m regs) e
      → IsOutside a
      → (flash.byte (mem_of flash ecc cosign k e) a ≡ nvmc.byte m a) × IsInForce e
  Steps-outside bprot_laws flash_laws uicr_laws decode_laws known {e} a steps out = (
    outside out,
    Live-IsInForce e (
        Steps-Live flash ecc cosign k m flash_laws uicr_laws decode_laws
          (powered-Live flash ecc cosign k m regs known) steps),
  )
    where
      outside : IsOutside a → flash.byte (mem_of flash ecc cosign k e) a ≡ nvmc.byte m a
      outside (inl below) =
          Steps-fixed flash ecc cosign k m flash_laws uicr_laws decode_laws regs known a steps
            (inl below)
      outside (inr (from, to)) = upper_byte bprot_laws a steps from to
