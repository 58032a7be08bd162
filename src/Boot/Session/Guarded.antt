-- ===== src/Boot/Session/Guarded.antt =====
-- The pages that `flash_protect_mbr_bootloader` of bootloader/src/main.rs protects, through the
-- rounds of its loop.
use prime_ble_firmware.Base.{ℕ, ◌/◌, ◌≡◌, refl, ap, true, [], ◌∷◌, Option, none, some, arith}
use prime_ble_firmware.Consts.{flash_page}
use prime_ble_firmware.Protocol.{Bytes, Bootloader, HostProtocolMessage, TrustLevel}
use prime_ble_firmware.Platform.{VerificationResult}
use prime_ble_firmware.Boot.Verify.{verify_fw_image}
use prime_ble_firmware.Boot.Protect.{Bprot}
use prime_ble_firmware.Boot.Protect.Coverage.{is_protected}
use prime_ble_firmware.Boot.Protect.Ignored.{
  IsGuarded, erase_firmware_protected, write_firmware_block_protected,
}
use prime_ble_firmware.Boot.Session.{Board, Loader, SpiRead, verdict, handle, handle_read, round}

module _ (b : Board) (enabled : Bprot) (laws : IsGuarded b.flash enabled) (a : ℕ)
    (on : is_protected (a / flash_page) enabled ≡ true) where
  verdict_store :
      (trust : TrustLevel) (s : Loader b)
      (v : Option (VerificationResult × VerificationResult × Bytes))
      → (verdict b trust s v).0.store ≡ s.store
  unfolding verdict
  verdict_store trust s v = ground arith

  handle_protected :
      (m : HostProtocolMessage) (s : Loader b)
      → b.flash.byte (handle b m s).0.store.mem a ≡ b.flash.byte s.store.mem a
  unfolding handle
  handle_protected (HostProtocolMessage.bootloader Bootloader.erase_firmware) s =
      erase_firmware_protected b.flash enabled laws s.store a on
  handle_protected (HostProtocolMessage.bootloader (Bootloader.write_firmware_block idx block)) s =
      write_firmware_block_protected b.flash enabled laws b.digests s.store idx block a on
  handle_protected (HostProtocolMessage.bootloader (Bootloader.boot_firmware trust)) s =
      ap (λ store. b.flash.byte store.mem a)
        (verdict_store trust s (verify_fw_image b.ecc b.cosign b.digests b.flash s.store.mem trust))
  handle_protected _ s = refl

  handle_read_protected :
      (o : Option HostProtocolMessage) (s : Loader b)
      → b.flash.byte (handle_read b o s).0.store.mem a ≡ b.flash.byte s.store.mem a
  unfolding handle_read
  handle_read_protected none s = refl
  handle_read_protected (some m) s = handle_protected m s

  -- No round of the loop changes a byte of a protected page.
  pub round_protected :
      (read : SpiRead) (s : Loader b)
      → b.flash.byte (round b read s).0.store.mem a ≡ b.flash.byte s.store.mem a
  unfolding round
  round_protected SpiRead.failed s = refl
  round_protected (SpiRead.received []) s = refl
  round_protected (SpiRead.received (x ∷ buf)) s =
      handle_read_protected (b.codec.from_bytes (x ∷ buf)) s
