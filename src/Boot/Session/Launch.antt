-- ===== src/Boot/Session/Launch.antt =====
-- When the main loop of bootloader/src/main.rs leaves for the application, and in what state.
use prime_ble_firmware.Base.{
  ℕ, ◌<◌, ◌≡◌, refl, ap, sym, ◌∙◌, true, ◌||◌, Option, none, some, arith, if◌then◌else◌, ◌==◌,
}
use prime_ble_firmware.Consts.{uicr_seal_index, uicr_sealed_secret, uicr_sealed_wiped}
use prime_ble_firmware.Protocol.{Bytes, Bootloader, HostProtocolMessage, TrustLevel}
use prime_ble_firmware.Platform.{UicrLaws, VerificationResult}
use prime_ble_firmware.Boot.Secret.{no_answer, challenge_request, hmac_challenge_response}
use prime_ble_firmware.Boot.Secret.Registers.{write_secret_wipe}
use prime_ble_firmware.Boot.Secret.Sealing.{challenge_agreement}
use prime_ble_firmware.Boot.Verify.{verify_fw_image, is_developer}
use prime_ble_firmware.Boot.Verify.Trust.{IsHeader, verify_fw_image-valid}
use prime_ble_firmware.Boot.Protect.{Entry, app_vectors, flash_protect_sd_application}
use prime_ble_firmware.Boot.Session.{Board, Loader, Outcome, handle, clear_secret, verdict}

module _ (b : Board) where
  pub verdict-boots :
      (trust : TrustLevel) (s : Loader b)
      (v : Option (VerificationResult × VerificationResult × Bytes)) (r : HostProtocolMessage)
      (entry : Entry)
      → (verdict b trust s v).1 ≡ Outcome.boots r entry
      → (hash : Bytes) × (v ≡ some (VerificationResult.valid, VerificationResult.valid, hash))
        × (r ≡ HostProtocolMessage.bootloader (Bootloader.ack_verify_firmware true hash))
        × (entry ≡ app_vectors b.flash s.store.mem)
        × ((verdict b trust s v).0.store ≡ s.store)
  unfolding verdict
  verdict-boots trust s none r entry h = absurd (cc)
  verdict-boots trust s (some (VerificationResult.valid, VerificationResult.valid, hash)) r entry
        h =
      (hash, refl, ground arith, ground arith, refl)
  verdict-boots trust s (some (VerificationResult.valid, VerificationResult.invalid, hash)) r entry
        h =
      absurd (cc)
  verdict-boots trust s (some (VerificationResult.invalid, _, hash)) r entry h = absurd (cc)

  -- The bootloader enters the application only for a boot request, and only if cosign2 accepts
  -- the header of the image in flash, which must be fully trusted unless the request allows
  -- developer images. The response reports success with the hash of that header, the application
  -- is entered at the vectors of the flash that was checked, and neither the flash nor the
  -- progress of an update has changed.
  pub handle-boots :
      (m r : HostProtocolMessage) (s : Loader b) (entry : Entry)
      → (handle b m s).1 ≡ Outcome.boots r entry
      → (trust : TrustLevel) × (header : b.cosign.Header) × (m
          ≡ HostProtocolMessage.bootloader (Bootloader.boot_firmware trust))
        × IsHeader b.ecc b.cosign b.digests b.flash s.store.mem header
        × (b.cosign.is_fully_trusted header || is_developer trust ≡ true)
        × (r
            ≡ HostProtocolMessage.bootloader
                (Bootloader.ack_verify_firmware true (b.cosign.binary_hash header)))
        × (entry ≡ app_vectors b.flash s.store.mem)
        × ((handle b m s).0.store ≡ s.store)
  unfolding handle
  handle-boots (HostProtocolMessage.bootloader (Bootloader.boot_firmware trust)) r s entry h =
      let checked = verify_fw_image b.ecc b.cosign b.digests b.flash s.store.mem trust in
      let (hash, passed, response, vectors, kept) = verdict-boots trust s checked r entry h in
      let (header, accepted, same, trusted) =
        verify_fw_image-valid b.ecc b.cosign b.digests b.flash s.store.mem trust hash passed in
      (trust, header, refl, accepted, trusted, cc, vectors, kept)
  handle-boots _ r s entry h = absurd (cc)

  -- A launch adds the regions of the SoftDevice and of the application to those enabled.
  pub handle-boots_regions :
      (m r : HostProtocolMessage) (s : Loader b) (entry : Entry)
      → (handle b m s).1 ≡ Outcome.boots r entry
      → (handle b m s).0.bprot ≡ flash_protect_sd_application s.bprot
  unfolding handle
  handle-boots_regions m r s entry h = ground arith

  -- What a launch makes of the secret.
  pub handle-boots_vault :
      (trust : TrustLevel) (s : Loader b) (r : HostProtocolMessage) (entry : Entry)
      → (handle b (HostProtocolMessage.bootloader (Bootloader.boot_firmware trust)) s).1
        ≡ Outcome.boots r entry
      → (handle b (HostProtocolMessage.bootloader (Bootloader.boot_firmware trust)) s).0.vault
        ≡ clear_secret b trust s.vault
  unfolding handle
  handle-boots_vault trust s r entry h = ground arith

  module _ (laws : UicrLaws b.uicr) where
    -- A launch that allows developer images leaves no usable secret: if it was sealed, its words
    -- read zero and the seal says wiped. Sealed or not, the firmware then answers every challenge
    -- with the constant. The seal that the bootloader remembers is taken to be the register's.
    pub launch_developer :
        (s : Loader b) (r : HostProtocolMessage) (entry : Entry) (nonce i : ℕ)
        → s.vault.seal ≡ b.uicr.customer s.vault.regs uicr_seal_index
        → (handle b
            (HostProtocolMessage.bootloader (Bootloader.boot_firmware TrustLevel.developer))
            s).1
          ≡ Outcome.boots r entry
        → i < 8
        → let t =
            (handle b
              (HostProtocolMessage.bootloader (Bootloader.boot_firmware TrustLevel.developer))
              s).0 in
          (hmac_challenge_response b.uicr b.digests t.vault.regs nonce
            ≡ HostProtocolMessage.challenge_result no_answer)
          × (b.uicr.customer t.vault.regs i
              ≡ (if s.vault.seal == uicr_sealed_secret then 0 else b.uicr.customer s.vault.regs i))
          × (b.uicr.customer t.vault.regs uicr_seal_index
              ≡ (if s.vault.seal == uicr_sealed_secret then uicr_sealed_wiped else s.vault.seal))
    unfolding clear_secret hmac_challenge_response
    launch_developer s r entry nonce i same h lt = ground (
      arith,
      handle-boots_vault TrustLevel.developer s r entry h,
      write_secret_wipe b.uicr laws s.vault.regs i lt,
    )

  -- A launch that does not allow developer images leaves the registers and the remembered seal
  -- alone, so the firmware answers a challenge as the bootloader did. The seal that the bootloader
  -- remembers is taken to be the register's.
  pub launch_full :
      (s : Loader b) (r : HostProtocolMessage) (entry : Entry) (nonce : ℕ)
      → s.vault.seal ≡ b.uicr.customer s.vault.regs uicr_seal_index
      → (handle b (HostProtocolMessage.bootloader (Bootloader.boot_firmware TrustLevel.full)) s).1
        ≡ Outcome.boots r entry
      → let t =
          (handle b
            (HostProtocolMessage.bootloader (Bootloader.boot_firmware TrustLevel.full))
            s).0 in
        (t.vault ≡ s.vault)
        × (hmac_challenge_response b.uicr b.digests t.vault.regs nonce
            ≡ challenge_request b.uicr b.digests s.vault nonce)
  unfolding clear_secret
  launch_full s r entry nonce same h =
      let kept : (handle b
            (HostProtocolMessage.bootloader (Bootloader.boot_firmware TrustLevel.full)) s).0.vault
          ≡ s.vault =
        ground (arith, handle-boots_vault TrustLevel.full s r entry h) in
      (
        kept,
        ap (λ v. hmac_challenge_response b.uicr b.digests v.regs nonce) kept
            ∙ sym (challenge_agreement b.uicr b.digests s.vault nonce same),
      )
