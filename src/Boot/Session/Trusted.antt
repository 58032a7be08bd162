-- ===== src/Boot/Session/Trusted.antt =====
-- What bootloader/src/main.rs hands to the application: an image that is trusted with the secret, or
-- one that cannot use it.
use prime_ble_firmware.Base.{ℕ, ◌≡◌, sym, subst, ap, ◌⊎◌, inl, inr, true, ◌||◌, arith}
use prime_ble_firmware.Consts.{uicr_seal_index}
use prime_ble_firmware.Protocol.{HostProtocolMessage, TrustLevel, Bootloader}
use prime_ble_firmware.Platform.{UicrLaws}
use prime_ble_firmware.Boot.Secret.{no_answer, hmac_challenge_response}
use prime_ble_firmware.Boot.Secret.Sealing.{Synced}
use prime_ble_firmware.Boot.Protect.{Entry}
use prime_ble_firmware.Boot.Verify.{is_developer}
use prime_ble_firmware.Boot.Verify.Trust.{IsHeader}
use prime_ble_firmware.Boot.Session.{Board, Loader, Outcome, handle}
use prime_ble_firmware.Boot.Session.Launch.{handle-boots, launch_full, launch_developer}
use prime_ble_firmware.Boot.Session.Invariant.{IsSeal}

module _ (b : Board) where
  -- cosign2 accepts the header of the image in the flash, and the image is fully trusted, or the
  -- registers answer every challenge with the constant.
  pub record IsTrusted (m : b.flash.Mem) (regs : b.uicr.Regs) : Type 0 where
    pub header : b.cosign.Header
    pub accepted : IsHeader b.ecc b.cosign b.digests b.flash m header
    pub confined :
        (b.cosign.is_fully_trusted header ≡ true)
        ⊎ ((nonce : ℕ)
            → hmac_challenge_response b.uicr b.digests regs nonce
              ≡ HostProtocolMessage.challenge_result no_answer)

  -- The image that a launch enters is trusted, the seal a known one, and the flash is unchanged.
  pub record Launched (s t : Loader b) : Type 0 where
    pub trusted : IsTrusted t.store.mem t.vault.regs
    pub known : IsSeal (b.uicr.customer t.vault.regs uicr_seal_index)
    pub kept : t.store ≡ s.store

  module _ (laws : UicrLaws b.uicr) (r : HostProtocolMessage) (s : Loader b) (entry : Entry) where
    launch_known :
        (trust : TrustLevel)
        → Synced b.uicr s.vault
        → (handle b (HostProtocolMessage.bootloader (Bootloader.boot_firmware trust)) s).1
          ≡ Outcome.boots r entry
        → let t =
            (handle b (HostProtocolMessage.bootloader (Bootloader.boot_firmware trust)) s).0 in
          IsSeal (b.uicr.customer t.vault.regs uicr_seal_index)
    launch_known TrustLevel.full synced h =
        ground (arith, launch_full b s r entry 0 synced.same h, synced.known)
    launch_known TrustLevel.developer synced h =
        ground (arith, launch_developer b laws s r entry 0 0 synced.same h, synced.known)

    launch_confined :
        (trust : TrustLevel) (header : b.cosign.Header)
        → Synced b.uicr s.vault
        → (handle b (HostProtocolMessage.bootloader (Bootloader.boot_firmware trust)) s).1
          ≡ Outcome.boots r entry
        → b.cosign.is_fully_trusted header || is_developer trust ≡ true
        → let t =
            (handle b (HostProtocolMessage.bootloader (Bootloader.boot_firmware trust)) s).0 in
          (b.cosign.is_fully_trusted header ≡ true)
          ⊎ ((nonce : ℕ)
              → hmac_challenge_response b.uicr b.digests t.vault.regs nonce
                ≡ HostProtocolMessage.challenge_result no_answer)
    launch_confined TrustLevel.full header synced h e = inl (ground arith)
    launch_confined TrustLevel.developer header synced h e =
        inr λ nonce. (launch_developer b laws s r entry nonce 0 synced.same h (omega arith)).0

    launch-Launched :
        (trust : TrustLevel) (header : b.cosign.Header)
        → Synced b.uicr s.vault
        → IsHeader b.ecc b.cosign b.digests b.flash s.store.mem header
        → b.cosign.is_fully_trusted header || is_developer trust ≡ true
        → let t = (handle b (HostProtocolMessage.bootloader (Bootloader.boot_firmware trust)) s) in
          t.1 ≡ Outcome.boots r entry → t.0.store ≡ s.store → Launched s t.0
    launch-Launched trust header synced accepted trusted h kept = record {
      trusted = record {
        header = header;
        accepted =
            subst (λ m. IsHeader b.ecc b.cosign b.digests b.flash m header)
              (ap (λ store. store.mem) (sym kept)) accepted;
        confined = launch_confined trust header synced h trusted;
      };
      known = launch_known trust synced h;
      kept = kept;
    }

    -- What `BootFirmware` leaves when it enters the application.
    pub handle-Launched :
        (m : HostProtocolMessage)
        → Synced b.uicr s.vault
        → (handle b m s).1 ≡ Outcome.boots r entry
        → Launched s (handle b m s).0
    handle-Launched m synced h =
        let (trust, header, request, accepted, trusted, _, _, kept) =
          handle-boots b m r s entry h in
        subst
          (λ q.
            (handle b q s).1 ≡ Outcome.boots r entry
            → (handle b q s).0.store ≡ s.store
            → Launched s (handle b q s).0)
          (sym request) (launch-Launched trust header synced accepted trusted) h kept
