-- ===== src/Tests/Boot/Locks.antt =====
-- The theorems on the secret, the signatures and the protection of the flash, on concrete registers
-- and images.
use prime_ble_firmware.Base.{
  ℕ, zero, suc, ◌+◌, ◌<◌, ◌≡◌, refl, true, false, ◌||◌, List, [], ◌∷◌, some, arith, ◌==◌,
  if◌then◌else◌, ltb, leb, ◌&&◌, ◌/◌, get_or,
}
use prime_ble_firmware.Base.Bits.{and_word}
use prime_ble_firmware.Consts.{
  base_bootloader_addr, signature_header_size, flash_page, base_app_addr, uicr_sealed_secret,
  u32_mod,
}
use prime_ble_firmware.Protocol.{SecretSaveResponse, TrustLevel}
use prime_ble_firmware.Platform.{NorFlash, VerificationResult}
use prime_ble_firmware.Boot.Memory.{get_fw_image_slice}
use prime_ble_firmware.Boot.Secret.{Vault, write_secret, challenge_set}
use prime_ble_firmware.Boot.Secret.Sealing.{challenge_set_fresh}
use prime_ble_firmware.Boot.Verify.{
  verify_ecdsa, verify_image, verify_fw_image, read_version_and_build_date,
}
use prime_ble_firmware.Boot.Protect.{flash_protect_mbr_bootloader, bprot_reset}
use prime_ble_firmware.Boot.Protect.Coverage.{is_protected}
use prime_ble_firmware.Link.{bootloader_flash, firmware_flash, holds, flash_regions}
use prime_ble_firmware.Tests.Chip.{
  Bank, Cells, sim_flash, sim_uicr, sim_uicr_laws, sim_ecc, sim_cosign, sim_digests,
}

abbrev secret : List ℕ
secret = 1 ∷ 2 ∷ 3 ∷ 4 ∷ 5 ∷ 6 ∷ 7 ∷ 8 ∷ []

abbrev erased_cells : Cells
erased_cells = record { cell = λ i. 0xFFFFFFFF; writable = false }

abbrev sealed_cells : Cells
sealed_cells = record { cell = λ i. uicr_sealed_secret; writable = false }

abbrev fresh : Vault sim_uicr
fresh = record { regs = erased_cells; seal = 0xFFFFFFFF }

secret_words : (j : ℕ) → get_or secret j 0 < u32_mod
secret_words zero = omega arith
secret_words (suc zero) = omega arith
secret_words (suc (suc zero)) = omega arith
secret_words (suc (suc (suc zero))) = omega arith
secret_words (suc (suc (suc (suc zero)))) = omega arith
secret_words (suc (suc (suc (suc (suc zero))))) = omega arith
secret_words (suc (suc (suc (suc (suc (suc zero)))))) = omega arith
secret_words (suc (suc (suc (suc (suc (suc (suc zero))))))) = omega arith
secret_words (suc (suc (suc (suc (suc (suc (suc (suc j)))))))) = omega arith

challenge_set_fresh_example :
    let (w, reply) = challenge_set sim_uicr fresh secret in
    (reply ≡ SecretSaveResponse.sealed)
    × (w.regs.cell 7 ≡ 8)
    × (w.regs.cell 8 ≡ uicr_sealed_secret)
    × (w.seal ≡ uicr_sealed_secret)
challenge_set_fresh_example =
    challenge_set_fresh sim_uicr sim_uicr_laws fresh secret 7 (λ j. refl) refl refl secret_words
      refl refl (omega arith)

taken : (write_secret sim_uicr erased_cells secret uicr_sealed_secret).1 ≡ true
unfolding write_secret and_word
taken = refl

-- The word 1 has a bit that the register has lost.
refused : (write_secret sim_uicr sealed_cells secret uicr_sealed_secret).1 ≡ false
unfolding write_secret and_word
refused = refl

abbrev flash : NorFlash
flash = sim_flash true true true

-- An image signed by a developer, of version 9.
abbrev developer_bank : Bank
developer_bank a = if a == base_app_addr then 1 else if a == base_app_addr + 1 then 3 else 9

developer_accepted :
    verify_fw_image sim_ecc sim_cosign sim_digests flash developer_bank TrustLevel.developer
    ≡ some (VerificationResult.valid, VerificationResult.valid, 1 ∷ 3 ∷ 9 ∷ [])
unfolding verify_fw_image verify_image get_fw_image_slice verify_ecdsa read_version_and_build_date
developer_accepted = refl

flash_regions_example :
    (is_protected (0x28000 / flash_page) (flash_protect_mbr_bootloader bprot_reset)
      ≡ (ltb 0x28000 flash_page || holds bootloader_flash 0x28000))
    × ((leb base_app_addr 0x28000 && ltb 0x28000 base_bootloader_addr) ≡ (
        holds (record { origin = base_app_addr; length = signature_header_size }) 0x28000
        || holds firmware_flash 0x28000))
    × ((holds bootloader_flash 0x28000 && holds firmware_flash 0x28000) ≡ false)
flash_regions_example = flash_regions 0x28000 (omega arith)
