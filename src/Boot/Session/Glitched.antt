-- ===== src/Boot/Session/Glitched.antt =====
-- The arm `BootFirmware` of bootloader/src/main.rs when one of the two checks of the image is upset.
use prime_ble_firmware.Base.{◌≡◌, ◌⊎◌, true, ◌||◌, some}
use prime_ble_firmware.Protocol.{Bytes, HostProtocolMessage, TrustLevel}
use prime_ble_firmware.Platform.{VerificationResult}
use prime_ble_firmware.Boot.Protect.{Entry}
use prime_ble_firmware.Boot.Verify.{verify_image, both_checks, is_developer}
use prime_ble_firmware.Boot.Verify.Trust.{IsHeader, app_image}
use prime_ble_firmware.Boot.Verify.Glitch.{both_checks-valid}
use prime_ble_firmware.Boot.Session.{Board, Loader, Outcome, verdict}
use prime_ble_firmware.Boot.Session.Launch.{verdict-boots}

module _ (b : Board) where
  -- If one of the two checks of the image is carried out as written, then whatever the other gives,
  -- the application is entered only if cosign2 accepts the header of the image in flash, and that
  -- header is fully trusted or the request allows developer images.
  pub verdict_one_fault :
      (trust : TrustLevel) (s : Loader b) (r1 r2 : VerificationResult × Bytes)
      (r : HostProtocolMessage) (entry : Entry)
      → let check =
          verify_image b.ecc b.cosign b.digests
            (app_image b.ecc b.cosign b.digests b.flash s.store.mem)
            trust in
        (r1 ≡ check) ⊎ (r2 ≡ check)
        → (verdict b trust s (some (both_checks r1 r2))).1 ≡ Outcome.boots r entry
        → (header : b.cosign.Header) × IsHeader b.ecc b.cosign b.digests b.flash s.store.mem header
          × (b.cosign.is_fully_trusted header || is_developer trust ≡ true)
  verdict_one_fault trust s r1 r2 r entry one h =
      let (hash, both, _, _, _) = verdict-boots b trust s (some (both_checks r1 r2)) r entry h in
      both_checks-valid b.ecc b.cosign b.digests b.flash s.store.mem trust r1 r2 hash one (cc)
