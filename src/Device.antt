-- ===== src/Device.antt =====
-- The chip over its life: bootloader/src/main.rs and firmware/src/main.rs in turn, on one flash and
-- one set of registers, through launches, resets and power cycles. Power is lost between two
-- messages, not inside one.
pub mod Life
pub mod Flash
pub mod Secret
pub mod Identity
use prime_ble_firmware.Base.{ℕ, ◌≡◌, ◌≢◌, Option}
use prime_ble_firmware.Protocol.{Bytes, HostProtocolMessage}
use prime_ble_firmware.Platform.{NorFlash, MicroEcc, Cosign}
use prime_ble_firmware.Boot.Secret.{challenge_request, hmac_challenge_response}
use prime_ble_firmware.Boot.Protect.{Entry}
use prime_ble_firmware.Boot.Session.{Board, Loader, SpiRead, Turn, start, round}
use prime_ble_firmware.Boot.Session.Reach.{InBuffer}
use prime_ble_firmware.Firmware.Kernel.{Kernel, CommsContext}
use prime_ble_firmware.Firmware.Comms.{CommsTurn, comms_round}
use prime_ble_firmware.Firmware.Startup.{Fresh, initial_world}
use prime_ble_firmware.Firmware.Server.{Phase, Task}
use prime_ble_firmware.Firmware.Server

-- The firmware uses the registers, the digests and the messages of the bootloader.
abbrev pub board : NorFlash → MicroEcc → Cosign → Kernel → Board
board flash ecc cosign k = record {
  flash = flash;
  uicr = k.uicr;
  ecc = ecc;
  cosign = cosign;
  digests = k.digests;
  codec = k.codec;
}

module _ (flash : NorFlash) (ecc : MicroEcc) (cosign : Cosign) (k : Kernel) where
  -- Which of the two programs runs, with what it keeps. The firmware does not write the flash.
  pub data Device : Type 0 where
    booting : Loader (board flash ecc cosign k) → Device
    running : flash.Mem → CommsContext → Task k → Device

  unfoldable pub mem_of : Device → flash.Mem
  mem_of (booting s) = s.store.mem
  mem_of (running m context t) = m

  unfoldable pub regs_of : Device → k.uicr.Regs
  regs_of (booting s) = s.vault.regs
  regs_of (running m context t) = t.world.regs

  -- The bootloader before its first round.
  abbrev pub powered : flash.Mem → k.uicr.Regs → Device
  powered m regs = booting (start (board flash ecc cosign k) m regs)

  -- A reset, or power that comes back.
  unfoldable pub reboot : Device → Device
  unfolding mem_of regs_of
  reboot d = powered (mem_of d) (regs_of d)

  -- The tasks of the firmware before their first step.
  unfoldable pub launched : Loader (board flash ecc cosign k) → Fresh k → CommsContext → Device
  launched s fresh context = running s.store.mem context (record {
    world = initial_world k (record fresh { regs = s.vault.regs });
    phase = Phase.waiting;
  })

  -- What the device answers `ChallengeRequest` with.
  unfoldable pub challenge : Device → ℕ → HostProtocolMessage
  challenge (booting s) nonce = challenge_request k.uicr k.digests s.vault nonce
  challenge (running m context t) nonce =
      hmac_challenge_response k.uicr k.digests t.world.regs nonce

  pub data Step : Device → Device → Type 0 where
    -- A round of the bootloader's loop, and the two ways out of it.
    stays :
        {s : Loader (board flash ecc cosign k)} (read : SpiRead) (frame : Option Bytes)
        → InBuffer read
        → (round (board flash ecc cosign k) read s).1 ≡ Turn.continues frame
        → Step (booting s) (booting (round (board flash ecc cosign k) read s).0)
    launches :
        {s : Loader (board flash ecc cosign k)} (read : SpiRead) (frame : Option Bytes)
        (entry : Entry) (fresh : Fresh k) (context : CommsContext)
        → (round (board flash ecc cosign k) read s).1 ≡ Turn.enters frame entry
        → Step (booting s) (launched (round (board flash ecc cosign k) read s).0 fresh context)
    restarts :
        {s : Loader (board flash ecc cosign k)} (read : SpiRead)
        → (round (board flash ecc cosign k) read s).1 ≡ Turn.restarts
        → Step (booting s) (reboot (booting (round (board flash ecc cosign k) read s).0))
    -- A step of the firmware's tasks, and the reset that the MPU asks for.
    works :
        {m : flash.Mem} {context : CommsContext} {t u : Task k}
        → Server.Step k context t u
        → Step (running m context t) (running m context u)
    firmware_restarts :
        {m : flash.Mem} {context : CommsContext} {t : Task k} (read : Option Bytes)
        → t.phase ≢ Phase.panicked
        → (comms_round k read context t.world).1 ≡ CommsTurn.restarts
        → Step (running m context t) (
            reboot
              (running m context (record t { world = (comms_round k read context t.world).0 })))
    power_cycle : {d : Device} → Step d (reboot d)

  pub data Steps (d : Device) : Device → Type 0 where
    here : Steps d d
    next : {e g : Device} → Steps d e → Step e g → Steps d g
