-- ===== src/Boot/Session/Invariant.antt =====
-- What holds of bootloader/src/main.rs from a reset until it leaves its loop, whatever the host
-- sends.
use prime_ble_firmware.Base.{
  ℕ, ◌+◌, ◌-◌, ◌/◌, ◌≤◌, ◌<◌, ◌≡◌, refl, sym, subst, ◌∙◌, ◌⊎◌, inl, inr, true, Option, arith,
  length, Option-cases,
}
use prime_ble_firmware.Consts.{
  base_bootloader_addr, uicr_seal_index, uicr_sealed_secret, uicr_sealed_wiped, u32_mod,
}
use prime_ble_firmware.Protocol.{Bytes, Bootloader, HostProtocolMessage, TrustLevel}
use prime_ble_firmware.Platform.{NorFlashRange, UicrLaws, VerificationResult}
use prime_ble_firmware.Boot.Memory.{Store, erase_firmware, write_firmware_block}
use prime_ble_firmware.Boot.Memory.Bounds.{
  InRange, block_max, erase_firmware-InRange, write_firmware_block-InRange,
  write_firmware_block_outside,
}
use prime_ble_firmware.Boot.Secret.{Vault, challenge_set}
use prime_ble_firmware.Boot.Secret.Sealing.{Synced, challenge_set-Synced}
use prime_ble_firmware.Boot.Verify.{verify_fw_image}
use prime_ble_firmware.Boot.Protect.{flash_protect_mbr_bootloader, bprot_reset}
use prime_ble_firmware.Boot.Session.Launch.{handle-boots_regions}
use prime_ble_firmware.Boot.Session.{Board, Loader, Outcome, start, handle, verdict}
use prime_ble_firmware.Boot.Session.Reach.{Fits, DecodeLaws, Reach, Reach_induction}
use prime_ble_firmware.Boot.Secret.{challenge_request, hmac_challenge_response}
use prime_ble_firmware.Boot.Secret.Sealing.{challenge_agreement}
use prime_ble_firmware.Consts.{flash_page}
use prime_ble_firmware.Boot.Protect.Coverage.{is_protected, flash_end, sd_application_covers}
use prime_ble_firmware.Boot.Protect.{Entry}

-- The bytes that no request can change: those below the first page of the application, and those
-- from one block past the base of the bootloader on.
abbrev pub IsFixed : ℕ → Type 0
IsFixed a = (a < 110592) ⊎ (base_bootloader_addr + block_max ≤ a)

module _ (b : Board) (before : b.flash.Mem) where
  pub record Inv (s : Loader b) : Type 0 where
    pub in_range : InRange s.store.boot_status
    pub synced : Synced b.uicr s.vault
    pub bprot : s.bprot ≡ flash_protect_mbr_bootloader bprot_reset
    pub fixed : (a : ℕ) → IsFixed a → b.flash.byte s.store.mem a ≡ b.flash.byte before a

  module _ (flash_laws : NorFlashRange b.flash) (uicr_laws : UicrLaws b.uicr) where
    erase_firmware_fixed :
        (s : Store b.flash) (a : ℕ)
        → IsFixed a
        → b.flash.byte (erase_firmware b.flash s).0.mem a ≡ b.flash.byte s.mem a
    unfolding erase_firmware
    erase_firmware_fixed s a out = elim (Option-cases (b.flash.read s.mem 110592 1024)) [
      | inl e ↦ ground arith
      | inr (saved, e) ↦
          let erased = (b.flash.erase s.mem 110592 base_bootloader_addr).0 in
          ground (
            arith,
            flash_laws.length-read s.mem 110592 1024 saved e,
            flash_laws.erase_below s.mem 110592 base_bootloader_addr a,
            flash_laws.erase_above s.mem 110592 base_bootloader_addr a,
            flash_laws.write_below erased 110592 saved a,
            flash_laws.write_above erased 110592 saved a,
          )
    ]

    write_firmware_block_fixed :
        (s : Store b.flash) (idx : ℕ) (block : Bytes) (a : ℕ)
        → InRange s.boot_status
        → length block ≤ block_max
        → IsFixed a
        → b.flash.byte (write_firmware_block b.flash b.digests s idx block).0.mem a
          ≡ b.flash.byte s.mem a
    write_firmware_block_fixed s idx block a h k out =
        write_firmware_block_outside b.flash b.digests flash_laws s idx block a h k (omega arith)

    verdict-responds :
        (trust : TrustLevel) (s : Loader b)
        (v : Option (VerificationResult × VerificationResult × Bytes))
        (answer : Option HostProtocolMessage)
        → (verdict b trust s v).1 ≡ Outcome.responds answer
        → (verdict b trust s v).0 ≡ s
    unfolding verdict
    verdict-responds trust s v answer h = ground arith

    pub handle-Inv :
        (m : HostProtocolMessage) (s : Loader b) (answer : Option HostProtocolMessage)
        → Fits block_max m
        → (handle b m s).1 ≡ Outcome.responds answer
        → Inv s
        → Inv (handle b m s).0
    unfolding handle
    handle-Inv (HostProtocolMessage.bootloader Bootloader.erase_firmware) s answer fits h v =
        record {
          in_range = erase_firmware-InRange b.flash b.digests s.store v.in_range;
          synced = v.synced;
          bprot = v.bprot;
          fixed = λ a out. erase_firmware_fixed s.store a out ∙ v.fixed a out;
        }
    handle-Inv (HostProtocolMessage.bootloader (Bootloader.write_firmware_block idx block)) s answer
          fits h v =
        record {
          in_range =
              write_firmware_block-InRange b.flash b.digests s.store idx block v.in_range fits;
          synced = v.synced;
          bprot = v.bprot;
          fixed = λ a out.
              write_firmware_block_fixed s.store idx block a v.in_range fits out ∙ v.fixed a out;
        }
    handle-Inv (HostProtocolMessage.bootloader (Bootloader.challenge_set secret)) s answer fits h
          v =
        record {
          in_range = v.in_range;
          synced = challenge_set-Synced b.uicr uicr_laws s.vault secret fits v.synced;
          bprot = v.bprot;
          fixed = v.fixed;
        }
    handle-Inv (HostProtocolMessage.bootloader (Bootloader.boot_firmware trust)) s answer fits h v =
        subst Inv
          (sym (
            verdict-responds trust s
              (verify_fw_image b.ecc b.cosign b.digests b.flash s.store.mem trust) answer h))
          v
    handle-Inv _ s answer fits h v = v

    -- As long as the loop has not been left, the offset is in range, the remembered seal is the
    -- register's, the protection is as it was set up, and no byte has changed that lies below the
    -- first page of the application or one block past the base of the bootloader.
    pub Reach-Inv :
        (decode_laws : DecodeLaws b.codec) {s t : Loader b} → Inv s → Reach b s t → Inv t
    Reach-Inv decode_laws = Reach_induction b decode_laws Inv handle-Inv

-- The seal that a reset finds is an erased, a sealed or a wiped one.
abbrev pub IsSeal : ℕ → Type 0
IsSeal seal = (seal ≡ u32_mod - 1) ⊎ (seal ≡ uicr_sealed_secret) ⊎ (seal ≡ uicr_sealed_wiped)

module _ (b : Board) (m : b.flash.Mem) (r : b.uicr.Regs) where
  -- What holds after a reset, if the seal is a known one and the fixed bytes are what they were.
  pub restart-Inv :
      (before : b.flash.Mem)
      → IsSeal (b.uicr.customer r uicr_seal_index)
      → ((a : ℕ) → IsFixed a → b.flash.byte m a ≡ b.flash.byte before a)
      → Inv b before (start b m r)
  unfolding start
  restart-Inv before known fixed = record {
    in_range = omega arith;
    synced = record { same = refl; known = known };
    bprot = refl;
    fixed = fixed;
  }

  start-Inv : IsSeal (b.uicr.customer r uicr_seal_index) → Inv b m (start b m r)
  start-Inv known = restart-Inv m known (λ a out. refl)

  module _ (flash_laws : NorFlashRange b.flash) (uicr_laws : UicrLaws b.uicr)
      (decode_laws : DecodeLaws b.codec) (known : IsSeal (b.uicr.customer r uicr_seal_index))
      {s : Loader b} (reach : Reach b (start b m r) s) where
    -- After a reset that finds an erased, a sealed or a wiped seal, and after any rounds of the
    -- loop, a byte below the first page of the application, or one block or more past the base of
    -- the bootloader, is what it was at the reset.
    start-fixed : (a : ℕ) → IsFixed a → b.flash.byte s.store.mem a ≡ b.flash.byte m a
    start-fixed a out =
        (Reach-Inv b m flash_laws uicr_laws decode_laws (start-Inv known) reach).fixed a out

    -- After a reset that finds an erased, a sealed or a wiped seal, and after any rounds of the
    -- loop, the bootloader answers a challenge as the firmware would on the same registers.
    pub start-challenge :
        (nonce : ℕ)
        → challenge_request b.uicr b.digests s.vault nonce
          ≡ hmac_challenge_response b.uicr b.digests s.vault.regs nonce
    start-challenge nonce =
        challenge_agreement b.uicr b.digests s.vault nonce
          (Reach-Inv b m flash_laws uicr_laws decode_laws (start-Inv known) reach).synced.same

    -- After a reset that finds an erased, a sealed or a wiped seal, and after any rounds of the
    -- loop, if a message makes the bootloader enter the application, every address of the flash is
    -- protected, a debugger attached or not.
    pub start-protected :
        (msg resp : HostProtocolMessage) (entry : Entry) (a : ℕ)
        → (handle b msg s).1 ≡ Outcome.boots resp entry
        → a < flash_end
        → is_protected (a / flash_page) (handle b msg s).0.bprot ≡ true
    start-protected msg resp entry a h lt =
        rw
          (
            handle-boots_regions b msg resp s entry h,
            (Reach-Inv b m flash_laws uicr_laws decode_laws (start-Inv known) reach).bprot,
          )
          (sd_application_covers a lt)

module _ (b : Board) (decode_laws : DecodeLaws b.codec) where
  pub handle-vault :
      (v : Vault b.uicr)
      → (v.seal ≡ uicr_sealed_secret) ⊎ (v.seal ≡ uicr_sealed_wiped)
      → (m : HostProtocolMessage) (s : Loader b) (answer : Option HostProtocolMessage)
      → Fits block_max m
      → (handle b m s).1 ≡ Outcome.responds answer
      → s.vault ≡ v
      → (handle b m s).0.vault ≡ v
  unfolding handle challenge_set
  handle-vault v locked m s answer fits h e = ground arith

  -- Once the bootloader knows a secret to be sealed or wiped, no round of its loop changes the
  -- registers or what it remembers of the seal: only a launch can.
  Reach-vault :
      {s t : Loader b}
      → (s.vault.seal ≡ uicr_sealed_secret) ⊎ (s.vault.seal ≡ uicr_sealed_wiped)
      → Reach b s t
      → t.vault ≡ s.vault
  Reach-vault {s} locked reach =
      Reach_induction b decode_laws (λ l. l.vault ≡ s.vault) (handle-vault s.vault locked) {s = s}
        refl reach
