-- ===== src/Boot/Protect/Coverage.antt =====
-- Which addresses the protection set up by bootloader/src/main.rs covers. The flash of the chip
-- ends at 0x30000, and a region is a page of it.
use prime_ble_firmware.Base.{
  ℕ, zero, suc, ◌/◌, ◌<◌, ◌≡◌, refl, Bool, List, true, false, ◌&&◌, ◌||◌, [], ◌∷◌, arith, ltb, leb,
  ◌==◌, if◌then◌else◌,
}
use prime_ble_firmware.Consts.{base_bootloader_addr, flash_page}
use prime_ble_firmware.Boot.Protect.{
  Bprot, flash_protect_mbr_bootloader, bprot_reset, flash_protect_sd_application,
}

abbrev pub flash_end : ℕ
flash_end = 0x30000

abbrev is_enabled : ℕ → List ℕ → Bool
is_enabled p [] = false
is_enabled p (r ∷ rs) = p == r || is_enabled p rs

-- A debugger attached or not.
abbrev pub is_protected : ℕ → Bprot → Bool
is_protected p b = is_enabled p b.enabled && b.disableindebug == 0

agree_below : ℕ → (ℕ → Bool) → (ℕ → Bool) → Bool
agree_below zero p q = true
agree_below (suc n) p q = (if p n then q n else if q n then false else true) && agree_below n p q

agree_below_sound : (n : ℕ) (p q : ℕ → Bool) (x : ℕ) → agree_below n p q ≡ true → x < n → p x ≡ q x
unfolding agree_below
agree_below_sound zero p q x h lt = absurd (omega arith)
agree_below_sound (suc n) p q x h lt = ground (arith, agree_below_sound n p q x)

mbr_table :
    agree_below 48
      (λ p. is_protected p (flash_protect_mbr_bootloader bprot_reset))
      (λ p. ltb p 1 || leb 39 p)
    ≡ true
unfolding agree_below flash_protect_mbr_bootloader
mbr_table = refl

all_table :
    agree_below 48
      (λ p.
        is_protected p (flash_protect_sd_application (flash_protect_mbr_bootloader bprot_reset)))
      (λ p. true)
    ≡ true
unfolding agree_below flash_protect_mbr_bootloader flash_protect_sd_application
all_table = refl

-- While the bootloader runs, the protected addresses are the first page, which is the MBR's, and
-- the bootloader's own from its base on. The area of the application is not among them.
pub mbr_bootloader_covers :
    (a : ℕ)
    → a < flash_end
    → is_protected (a / flash_page) (flash_protect_mbr_bootloader bprot_reset)
      ≡ (ltb a flash_page || leb base_bootloader_addr a)
mbr_bootloader_covers a h = ground (
  arith,
  agree_below_sound 48 (λ (p : ℕ). is_protected p (flash_protect_mbr_bootloader bprot_reset))
      (λ (p : ℕ). ltb p 1 || leb 39 p) (a / flash_page) mbr_table,
)

-- The regions enabled at the start and at a launch together cover every address of the flash.
pub sd_application_covers :
    (a : ℕ)
    → a < flash_end
    → is_protected
        (a / flash_page)
        (flash_protect_sd_application (flash_protect_mbr_bootloader bprot_reset))
      ≡ true
sd_application_covers a h =
    agree_below_sound 48
      (λ p.
        is_protected p (flash_protect_sd_application (flash_protect_mbr_bootloader bprot_reset)))
      (λ p. true) (a / flash_page) all_table (omega arith)
