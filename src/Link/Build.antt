-- ===== src/Link/Build.antt =====
-- `main` of bootloader/build.rs and of firmware/build.rs: what they put into memory.x, and what they
-- tell Cargo. Whether the file can be written is left to the machine.
use prime_ble_firmware.Base.{ℕ, ◌+◌, ◌<◌, ◌≡◌, false, List, [], ◌∷◌, arith, refl}
use Prim.Native.String.{String}
use prime_ble_firmware.Consts.{
  base_app_addr, base_bootloader_addr, signature_header_size, uicr_secret_start, uicr_secret_size,
}
use prime_ble_firmware.Link.{
  Region, holds, bootloader_flash, bootloader_ram, mbr_uicr_bootloader_addr, uicr_approtect,
  firmware_flash, firmware_ram,
}

-- The lines for Cargo.
pub data Directive : Type 0 where
  rustc_link_search rerun_if_changed rustc_link_arg_bins : String → Directive

-- The symbols, the regions and the sections of memory.x, a section with the region that it goes to,
-- and the lines for Cargo.
pub record Script : Type 0 where
  pub symbols : List (String × ℕ)
  pub memory : List (String × Region)
  pub sections : List (String × String)
  pub directives : List Directive

-- The argument is `OUT_DIR`.
unfoldable pub bootloader_build : String → Script
bootloader_build out = record {
  symbols = ("BASE_BOOTLOADER_ADDR", base_bootloader_addr) ∷ [];
  memory =
      ("FLASH", bootloader_flash)
      ∷ ("RAM", bootloader_ram)
      ∷ ("mbr_uicr_bootloader_addr", mbr_uicr_bootloader_addr)
      ∷ ("uicr_approtect", uicr_approtect)
      ∷ [];
  sections =
      (".uicr_approtect", "uicr_approtect")
      ∷ (".mbr_uicr_bootloader_addr", "mbr_uicr_bootloader_addr")
      ∷ [];
  directives =
      Directive.rustc_link_search out
      ∷ Directive.rerun_if_changed "./memory.x"
      ∷ Directive.rustc_link_arg_bins "-Tlink.x"
      ∷ Directive.rustc_link_arg_bins "-Tdefmt.x"
      ∷ [];
}

unfoldable pub firmware_build : String → Script
firmware_build out = record {
  symbols =
      ("BASE_BOOTLOADER_ADDR", base_bootloader_addr)
      ∷ ("BASE_APP_ADDR", base_app_addr)
      ∷ ("SIGNATURE_HEADER_SIZE", signature_header_size)
      ∷ [];
  memory = ("FLASH", firmware_flash) ∷ ("RAM", firmware_ram) ∷ [];
  sections = [];
  directives =
      Directive.rustc_link_search out
      ∷ Directive.rustc_link_arg_bins "-Tlink.x"
      ∷ Directive.rustc_link_arg_bins "-Tdefmt.x"
      ∷ [];
}

-- The statics of bootloader/src/consts.rs that go to the two sections.
abbrev pub mbr_uicr_bootloader_value : ℕ
mbr_uicr_bootloader_value = base_bootloader_addr

abbrev pub approtect : ℕ
approtect = 0

-- The MBR is told to start what the linker puts at the start of the bootloader's flash.
pub mbr_uicr_bootloader_value-origin : mbr_uicr_bootloader_value ≡ bootloader_flash.origin
unfolding bootloader_flash
mbr_uicr_bootloader_value-origin = refl

-- What the linker puts into the UICR lies outside of the secret and of the seal behind it.
pub secret_outside :
    (a : ℕ)
    → uicr_secret_start < a + 1
    → a < uicr_secret_start + uicr_secret_size + 4
    → (holds mbr_uicr_bootloader_addr a ≡ false) × (holds uicr_approtect a ≡ false)
unfolding mbr_uicr_bootloader_addr uicr_approtect
secret_outside a from to = (ground arith, ground arith)
