-- ===== src/Device/Life.antt =====
-- What holds of the chip in all its life, from a first reset on: bootloader/src/main.rs,
-- firmware/src/main.rs, and the way between them.
use prime_ble_firmware.Base.{ℕ, ◌≡◌, refl, sym, subst, ap, ◌∙◌, Option}
use prime_ble_firmware.Consts.{uicr_seal_index}
use prime_ble_firmware.Protocol.{Bytes}
use prime_ble_firmware.Platform.{NorFlash, NorFlashRange, UicrLaws, MicroEcc, Cosign}
use prime_ble_firmware.Boot.Protect.{Entry}
use prime_ble_firmware.Boot.Session.{Board, Loader, SpiRead, Turn, round}
use prime_ble_firmware.Boot.Session.Exits.{round-boots, round-resets}
use prime_ble_firmware.Boot.Session.Reach.{DecodeLaws, round_keeps}
use prime_ble_firmware.Boot.Session.Invariant.{Inv, IsFixed, IsSeal, handle-Inv, restart-Inv}
use prime_ble_firmware.Boot.Session.Trusted.{IsTrusted, handle-Launched}
use prime_ble_firmware.Firmware.Kernel.{Kernel, CommsContext}
use prime_ble_firmware.Firmware.Startup.{initial_world}
use prime_ble_firmware.Firmware.Server.{Task}
use prime_ble_firmware.Firmware.Server.Registers.{Step-regs, comms_round_regs}
use prime_ble_firmware.Device.{
  board, Device, Step, Steps, mem_of, regs_of, reboot, launched, powered,
}

-- What holds of the flash and the registers while the firmware runs.
pub record IsGenuine (b : Board) (before m : b.flash.Mem) (regs : b.uicr.Regs) : Type 0 where
  pub known : IsSeal (b.uicr.customer regs uicr_seal_index)
  pub fixed : (a : ℕ) → IsFixed a → b.flash.byte m a ≡ b.flash.byte before a
  pub trusted : IsTrusted b m regs

module _ (b : Board) (before : b.flash.Mem) (laws : UicrLaws b.uicr) where
  -- A round that launches leaves a genuine image.
  round-IsGenuine :
      (read : SpiRead) (s : Loader b) (frame : Option Bytes) (entry : Entry)
      → (round b read s).1 ≡ Turn.enters frame entry
      → Inv b before s
      → IsGenuine b before (round b read s).0.store.mem (round b read s).0.vault.regs
  round-IsGenuine read s frame entry h v =
      let (m, r, booted, same) = round-boots b read s frame entry h in
      let launch = handle-Launched b laws r s entry m v.synced booted in
      subst (λ t. IsGenuine b before t.store.mem t.vault.regs) (sym same)
        (record {
          known = launch.known;
          fixed = λ a out. ap (λ store. b.flash.byte store.mem a) launch.kept ∙ v.fixed a out;
          trusted = launch.trusted;
        })

module _ (flash : NorFlash) (ecc : MicroEcc) (cosign : Cosign) (k : Kernel)
    (before : flash.Mem) where
  -- The invariant of the whole life.
  abbrev pub Live : Device flash ecc cosign k → Type 0
  Live (Device.booting s) = Inv (board flash ecc cosign k) before s
  Live (Device.running m context t) = IsGenuine (board flash ecc cosign k) before m t.world.regs

  pub powered-Live :
      (regs : k.uicr.Regs)
      → IsSeal (k.uicr.customer regs uicr_seal_index)
      → Live (powered flash ecc cosign k before regs)
  powered-Live regs known =
      restart-Inv (board flash ecc cosign k) before regs before known (λ a out. refl)

  reboot-Live : (d : Device flash ecc cosign k) → Live d → Live (reboot flash ecc cosign k d)
  unfolding reboot mem_of regs_of
  reboot-Live (Device.booting s) v =
      restart-Inv (board flash ecc cosign k) s.store.mem s.vault.regs before
        (subst IsSeal v.synced.same v.synced.known) v.fixed
  reboot-Live (Device.running m context t) v =
      restart-Inv (board flash ecc cosign k) m t.world.regs before v.known v.fixed

  module _ (flash_laws : NorFlashRange flash) (uicr_laws : UicrLaws k.uicr)
      (decode_laws : DecodeLaws k.codec) where
    pub Step-Live :
        {d e : Device flash ecc cosign k} → Step flash ecc cosign k d e → Live d → Live e
    unfolding launched initial_world
    Step-Live (Step.stays {s} read frame n h) v =
        round_keeps (board flash ecc cosign k) decode_laws (Inv (board flash ecc cosign k) before)
          (handle-Inv (board flash ecc cosign k) before flash_laws uicr_laws) read s frame n h v
    Step-Live (Step.launches {s} read frame entry fresh context h) v =
        round-IsGenuine (board flash ecc cosign k) before uicr_laws read s frame entry h v
    Step-Live (Step.restarts {s} read h) v = reboot-Live _ (
        subst (Inv (board flash ecc cosign k) before)
          (sym (round-resets (board flash ecc cosign k) read s h)) v)
    Step-Live (Step.works {m} step) v =
        subst (IsGenuine (board flash ecc cosign k) before m) (sym (Step-regs k _ step)) v
    Step-Live (Step.firmware_restarts {m} {context} {t} read live h) v = reboot-Live _ (
        subst (IsGenuine (board flash ecc cosign k) before m)
          (sym (comms_round_regs k context read t.world)) v)
    Step-Live (Step.power_cycle {d}) v = reboot-Live d v

    pub Steps-Live :
        {d e : Device flash ecc cosign k} → Live d → Steps flash ecc cosign k d e → Live e
    Steps-Live v Steps.here = v
    Steps-Live v (Steps.next steps step) = Step-Live step (Steps-Live v steps)

    module _ (regs : k.uicr.Regs) (known : IsSeal (k.uicr.customer regs uicr_seal_index)) where
      -- From a reset that finds an erased, a sealed or a wiped seal on, through any launches, resets
      -- and power cycles: whenever the firmware runs, cosign2 accepts the header of the image in the
      -- flash, and that header is fully trusted or the firmware answers every challenge with the
      -- constant.
      pub Steps-IsTrusted :
          {m : flash.Mem} {context : CommsContext} {t : Task k}
          → Steps flash ecc cosign k
              (powered flash ecc cosign k before regs)
              (Device.running m context t)
          → IsTrusted (board flash ecc cosign k) m t.world.regs
      Steps-IsTrusted steps = (Steps-Live (powered-Live regs known) steps).trusted

      Live-fixed :
          (e : Device flash ecc cosign k) (a : ℕ)
          → Live e
          → IsFixed a
          → flash.byte (mem_of flash ecc cosign k e) a ≡ flash.byte before a
      unfolding mem_of
      Live-fixed (Device.booting s) a v out = v.fixed a out
      Live-fixed (Device.running m context t) a v out = v.fixed a out

      -- From a reset that finds an erased, a sealed or a wiped seal on, through any launches, resets
      -- and power cycles, a byte below the first page of the application, or one block or more past
      -- the base of the bootloader, is what it was at the first reset.
      pub Steps-fixed :
          {e : Device flash ecc cosign k} (a : ℕ)
          → Steps flash ecc cosign k (powered flash ecc cosign k before regs) e
          → IsFixed a
          → flash.byte (mem_of flash ecc cosign k e) a ≡ flash.byte before a
      Steps-fixed {e} a steps out = Live-fixed e a (Steps-Live (powered-Live regs known) steps) out
