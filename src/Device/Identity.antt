-- ===== src/Device/Identity.antt =====
-- The answers to a challenge over the life of the chip, by bootloader/src/main.rs and by
-- firmware/src/comms.rs.
use prime_ble_firmware.Base.{ℕ, ◌≡◌, refl, sym, ap, ◌∙◌, ◌⊎◌, inl, inr, arith}
use prime_ble_firmware.Consts.{uicr_seal_index, uicr_sealed_secret}
use prime_ble_firmware.Protocol.{HostProtocolMessage}
use prime_ble_firmware.Platform.{NorFlash, NorFlashRange, UicrLaws, MicroEcc, Cosign}
use prime_ble_firmware.Boot.Secret.{no_answer, hmac_challenge_response}
use prime_ble_firmware.Boot.Secret.Sealing.{challenge_agreement}
use prime_ble_firmware.Boot.Session.{start}
use prime_ble_firmware.Boot.Session.Exits.{round-resets}
use prime_ble_firmware.Boot.Session.Reach.{DecodeLaws}
use prime_ble_firmware.Boot.Session.Invariant.{IsSeal}
use prime_ble_firmware.Firmware.Kernel.{Kernel}
use prime_ble_firmware.Firmware.Startup.{initial_world}
use prime_ble_firmware.Firmware.Server.Registers.{Step-regs, comms_round_regs}
use prime_ble_firmware.Device.{
  board, Device, Step, Steps, regs_of, reboot, launched, challenge, powered,
}
use prime_ble_firmware.Device.Life.{Live, Steps-Live, powered-Live}
use prime_ble_firmware.Device.Secret.{
  IsWiped, Forward, Forward-same, Forward-trans, round-Forward, round_vault,
}

module _ (flash : NorFlash) (ecc : MicroEcc) (cosign : Cosign) (k : Kernel)
    (flash_laws : NorFlashRange flash) (uicr_laws : UicrLaws k.uicr)
    (decode_laws : DecodeLaws k.codec) (before : flash.Mem) where
  Step-Forward :
      {d e : Device flash ecc cosign k}
      → Step flash ecc cosign k d e
      → Live flash ecc cosign k before d
      → Forward k.uicr (regs_of flash ecc cosign k d) (regs_of flash ecc cosign k e)
  unfolding launched initial_world reboot regs_of start
  Step-Forward (Step.stays {s} read frame n h) v =
      round_vault (board flash ecc cosign k) uicr_laws decode_laws read s frame n h v.synced
  Step-Forward (Step.launches {s} read frame entry fresh context h) v =
      round-Forward (board flash ecc cosign k) uicr_laws read s frame entry h v.synced
  Step-Forward (Step.restarts {s} read h) v =
      Forward-same k.uicr s.vault.regs _
        (ap (λ l. l.vault.regs) (round-resets (board flash ecc cosign k) read s h))
  Step-Forward (Step.works {t} step) v = Forward-same k.uicr t.world.regs _ (Step-regs k _ step)
  Step-Forward (Step.firmware_restarts {context} {t} read live h) v =
      Forward-same k.uicr t.world.regs _ (comms_round_regs k context read t.world)
  Step-Forward (Step.power_cycle {d}) v = Forward-same k.uicr (regs_of flash ecc cosign k d) _ refl

  Live-Forward :
      {d e : Device flash ecc cosign k}
      → Live flash ecc cosign k before d
      → Steps flash ecc cosign k d e
      → Forward k.uicr (regs_of flash ecc cosign k d) (regs_of flash ecc cosign k e)
  Live-Forward v Steps.here = Forward-same k.uicr _ _ refl
  Live-Forward v (Steps.next steps step) = Forward-trans k.uicr _ _ _ (Live-Forward v steps) (
      Step-Forward step
        (Steps-Live flash ecc cosign k before flash_laws uicr_laws decode_laws v steps))

  Live-challenge :
      (d : Device flash ecc cosign k) (nonce : ℕ)
      → Live flash ecc cosign k before d
      → challenge flash ecc cosign k d nonce
        ≡ hmac_challenge_response k.uicr k.digests (regs_of flash ecc cosign k d) nonce
  unfolding challenge regs_of
  Live-challenge (Device.booting s) nonce v =
      challenge_agreement k.uicr k.digests s.vault nonce v.synced.same
  Live-challenge (Device.running m context t) nonce v = refl

  wiped_no_answer :
      (r : k.uicr.Regs) (nonce : ℕ)
      → IsWiped k.uicr r
      → hmac_challenge_response k.uicr k.digests r nonce
        ≡ HostProtocolMessage.challenge_result no_answer
  unfolding hmac_challenge_response
  wiped_no_answer r nonce w = ground (arith, w.seal)

  module _ (regs : k.uicr.Regs) (known : IsSeal (k.uicr.customer regs uicr_seal_index))
      {d e : Device flash ecc cosign k}
      (first : Steps flash ecc cosign k (powered flash ecc cosign k before regs) d)
      (then : Steps flash ecc cosign k d e) where
    first-Live : Live flash ecc cosign k before d
    first-Live =
        Steps-Live flash ecc cosign k before flash_laws uicr_laws decode_laws
          (powered-Live flash ecc cosign k before regs known) first

    -- In the life of a chip whose first reset finds an erased, a sealed or a wiped seal, through any
    -- launches, resets and power cycles: the registers of a wiped secret never change again, and
    -- those of a sealed one are as they were until the seal says wiped and the words read zero.
    pub Steps-Forward : Forward k.uicr (regs_of flash ecc cosign k d) (regs_of flash ecc cosign k e)
    Steps-Forward = Live-Forward first-Live then

    -- In such a life, a challenge is answered after any launches, resets and power cycles as it was
    -- when the secret had been sealed, by whichever program runs, or with the constant.
    pub Steps-challenge :
        (nonce : ℕ)
        → k.uicr.customer (regs_of flash ecc cosign k d) uicr_seal_index ≡ uicr_sealed_secret
        → (challenge flash ecc cosign k e nonce ≡ challenge flash ecc cosign k d nonce)
          ⊎ (challenge flash ecc cosign k e nonce ≡ HostProtocolMessage.challenge_result no_answer)
    Steps-challenge nonce sealed =
        let was = Live-challenge d nonce first-Live in
        let now =
          Live-challenge e nonce (
            Steps-Live flash ecc cosign k before flash_laws uicr_laws decode_laws first-Live
              then) in
        elim (Steps-Forward.sealed sealed) [
          | inl same ↦
              inl (now ∙ ap (λ r. hmac_challenge_response k.uicr k.digests r nonce) same ∙ sym was)
          | inr wiped ↦ inr (now ∙ wiped_no_answer (regs_of flash ecc cosign k e) nonce wiped)
        ]
