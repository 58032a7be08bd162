-- ===== src/Tests/Boot/Loop.antt =====
-- The theorems on the main loop of the bootloader, on a loop that stores a secret and a block and
-- then enters the application.
use prime_ble_firmware.Base.{
  ℕ, ◌+◌, ◌/◌, ◌≡◌, inl, refl, true, false, ◌||◌, [], ◌∷◌, Option, some, arith, ◌==◌, if◌then◌else◌,
}
use prime_ble_firmware.Base.Bits.{and_word}
use prime_ble_firmware.Consts.{base_app_addr, uicr_sealed_secret, uicr_sealed_wiped, flash_page}
use prime_ble_firmware.Protocol.{Bytes, Bootloader, HostProtocolMessage, TrustLevel}
use prime_ble_firmware.Protocol.Frame.{ack_msg_send}
use prime_ble_firmware.Boot.Memory.{boot_state_reset, get_fw_image_slice, write_firmware_block}
use prime_ble_firmware.Boot.Secret.{
  no_answer, write_secret, challenge_set, challenge_request, hmac_challenge_response,
}
use prime_ble_firmware.Boot.Verify.{
  verify_ecdsa, verify_image, verify_fw_image, read_version_and_build_date, is_developer,
}
use prime_ble_firmware.Boot.Verify.Trust.{IsHeader}
use prime_ble_firmware.Boot.Protect.{Entry, app_vectors, bprot_reset}
use prime_ble_firmware.Boot.Protect.Coverage.{is_protected}
use prime_ble_firmware.Boot.Session.{Loader, Outcome, SpiRead, start, handle, round}
use prime_ble_firmware.Boot.Session.Launch.{handle-boots, launch_developer}
use prime_ble_firmware.Boot.Session.Reach.{Reach}
use prime_ble_firmware.Boot.Session.Invariant.{start-challenge, start-protected}
use prime_ble_firmware.Tests.Chip.{
  Bank, Cells, sim_board, sim_uicr, sim_digests, sim_ecc, sim_cosign, sim_flash_range,
  sim_uicr_laws, sim-DecodeLaws,
}

-- A fully trusted image of version 9.
abbrev full_bank : Bank
full_bank a = if a == base_app_addr then 2 else if a == base_app_addr + 1 then 3 else 9

abbrev erased_cells : Cells
erased_cells = record { cell = λ i. 0xFFFFFFFF; writable = false }

abbrev sealed_cells : Cells
sealed_cells = record { cell = λ i. uicr_sealed_secret; writable = false }

-- A loader that knows a sealed secret.
abbrev sealed_loader : Loader sim_board
sealed_loader = record {
  store = record { mem = full_bank; boot_status = boot_state_reset };
  vault = record { regs = sealed_cells; seal = uicr_sealed_secret };
  bprot = bprot_reset;
}

abbrev boot : TrustLevel → HostProtocolMessage
boot trust = HostProtocolMessage.bootloader (Bootloader.boot_firmware trust)

abbrev booted : HostProtocolMessage
booted = HostProtocolMessage.bootloader (Bootloader.ack_verify_firmware true (2 ∷ 3 ∷ 9 ∷ []))

abbrev vectors : Entry
vectors = app_vectors sim_board.flash full_bank

boots :
    (trust : TrustLevel)
    → (handle sim_board (boot trust) sealed_loader).1 ≡ Outcome.boots booted vectors
unfolding handle get_fw_image_slice verify_fw_image verify_image verify_ecdsa
    read_version_and_build_date
boots TrustLevel.full = refl
boots TrustLevel.developer = refl

handle-boots_example :
    (trust : TrustLevel) × (header : ℕ × Bytes) × (boot TrustLevel.full ≡ boot trust)
    × IsHeader sim_ecc sim_cosign sim_digests sim_board.flash full_bank header
    × ((header.0 == 2) || is_developer trust ≡ true)
    × (booted ≡ HostProtocolMessage.bootloader (Bootloader.ack_verify_firmware true header.1))
    × (vectors ≡ app_vectors sim_board.flash full_bank)
    × ((handle sim_board (boot TrustLevel.full) sealed_loader).0.store ≡ sealed_loader.store)
handle-boots_example =
    handle-boots sim_board (boot TrustLevel.full) booted sealed_loader vectors
      (boots TrustLevel.full)

launch_developer_example :
    let t = (handle sim_board (boot TrustLevel.developer) sealed_loader).0 in
    (hmac_challenge_response sim_uicr sim_digests t.vault.regs 77
      ≡ HostProtocolMessage.challenge_result no_answer)
    × (t.vault.regs.cell 2 ≡ 0)
    × (t.vault.regs.cell 8 ≡ uicr_sealed_wiped)
launch_developer_example =
    launch_developer sim_board sim_uicr_laws sealed_loader booted vectors 77 2 refl
      (boots TrustLevel.developer) (omega arith)

-- Two rounds after a reset on an erased chip: a secret, then a block that changes no bit.
abbrev first : Loader sim_board
first =
    (round sim_board (SpiRead.received (2 ∷ 17 ∷ [])) (start sim_board full_bank erased_cells)).0

abbrev second : Loader sim_board
second = (round sim_board (SpiRead.received (1 ∷ 255 ∷ [])) first).0

abbrev frame : Option Bytes
frame = some (0 ∷ 2 ∷ 7 ∷ 9 ∷ [])

two_rounds : Reach sim_board (start sim_board full_bank erased_cells) second
unfolding round handle ack_msg_send challenge_set write_secret write_firmware_block start
two_rounds =
    Reach.next (SpiRead.received (1 ∷ 255 ∷ [])) frame
      (Reach.next (SpiRead.received (2 ∷ 17 ∷ [])) frame Reach.here (omega arith) refl refl)
      (omega arith) refl refl

start-challenge_example :
    challenge_request sim_uicr sim_digests second.vault 77
    ≡ hmac_challenge_response sim_uicr sim_digests second.vault.regs 77
start-challenge_example =
    start-challenge sim_board full_bank erased_cells (sim_flash_range true true true) sim_uicr_laws
      sim-DecodeLaws (inl refl) two_rounds 77

second-boots :
    (handle sim_board (boot TrustLevel.full) second).1
    ≡ Outcome.boots booted (app_vectors sim_board.flash second.store.mem)
unfolding handle get_fw_image_slice verify_fw_image verify_image verify_ecdsa
    read_version_and_build_date round write_firmware_block start challenge_set and_word
second-boots = refl

start-protected_example :
    is_protected (0x2FFFF / flash_page) (handle sim_board (boot TrustLevel.full) second).0.bprot
    ≡ true
start-protected_example =
    start-protected sim_board full_bank erased_cells (sim_flash_range true true true) sim_uicr_laws
      sim-DecodeLaws (inl refl) two_rounds (boot TrustLevel.full) booted
      (app_vectors sim_board.flash second.store.mem) 0x2FFFF second-boots (omega arith)
