-- ===== src/Tests/Boot/Glitch.antt =====
-- The theorem on one upset check, on a trusted image whose second check is made to say valid.
use prime_ble_firmware.Base.{ℕ, ◌+◌, ◌≡◌, inl, refl, true, ◌||◌, [], ◌∷◌, some, ◌==◌, if◌then◌else◌}
use prime_ble_firmware.Consts.{base_app_addr}
use prime_ble_firmware.Protocol.{Bytes, Bootloader, HostProtocolMessage, TrustLevel}
use prime_ble_firmware.Platform.{VerificationResult}
use prime_ble_firmware.Boot.Memory.{boot_state_reset, get_fw_image_slice}
use prime_ble_firmware.Boot.Protect.{Entry, app_vectors, bprot_reset}
use prime_ble_firmware.Boot.Verify.{both_checks, is_developer, verify_ecdsa, verify_image}
use prime_ble_firmware.Boot.Verify.Trust.{IsHeader}
use prime_ble_firmware.Boot.Session.{Loader, Outcome, verdict}
use prime_ble_firmware.Boot.Session.Glitched.{verdict_one_fault}
use prime_ble_firmware.Tests.Chip.{Bank, sim_board, sim_cosign, sim_digests, sim_ecc}
use prime_ble_firmware.Tests.Peer.{cells}

-- A fully trusted image of version 9.
abbrev bank : Bank
bank a = if a == base_app_addr then 2 else if a == base_app_addr + 1 then 3 else 9

abbrev loader : Loader sim_board
loader = record {
  store = record { mem = bank; boot_status = boot_state_reset };
  vault = record { regs = cells; seal = 0xFFFFFFFF };
  bprot = bprot_reset;
}

abbrev checked : VerificationResult × Bytes
checked = (VerificationResult.valid, 2 ∷ 3 ∷ 9 ∷ [])

abbrev upset : VerificationResult × Bytes
upset = (VerificationResult.valid, [])

abbrev booted : HostProtocolMessage
booted = HostProtocolMessage.bootloader (Bootloader.ack_verify_firmware true (2 ∷ 3 ∷ 9 ∷ []))

abbrev vectors : Entry
vectors = app_vectors sim_board.flash bank

boots :
    (verdict sim_board TrustLevel.full loader (some (both_checks checked upset))).1
    ≡ Outcome.boots booted vectors
unfolding verdict
boots = refl

verdict_one_fault_example :
    (header : ℕ × Bytes) × IsHeader sim_ecc sim_cosign sim_digests sim_board.flash bank header
    × ((header.0 == 2) || is_developer TrustLevel.full ≡ true)
unfolding verify_image verify_ecdsa get_fw_image_slice
verdict_one_fault_example =
    verdict_one_fault sim_board TrustLevel.full loader checked upset booted vectors (inl refl) boots
