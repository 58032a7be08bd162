-- ===== src/Link.antt =====
-- The memory that the linker may use for the bootloader and for the firmware: the regions of the
-- files memory.x that bootloader/build.rs and firmware/build.rs write, without the feature `debug`.
pub mod Build
use prime_ble_firmware.Base.{
  ℕ, ◌+◌, ◌-◌, ◌*◌, ◌/◌, ◌<◌, ◌≡◌, Bool, false, ◌&&◌, ◌||◌, arith, leb, ltb,
}
use prime_ble_firmware.Consts.{
  base_app_addr, base_bootloader_addr, signature_header_size, flash_page,
}
use prime_ble_firmware.Platform.{NorFlash}
use prime_ble_firmware.Boot.Protect.{
  flash_protect_mbr_bootloader, bprot_reset, word_at, app_vectors,
}
use prime_ble_firmware.Boot.Protect.Coverage.{flash_end, is_protected, mbr_bootloader_covers}

pub record Region : Type 0 where
  pub origin : ℕ
  pub length : ℕ

-- 1 K of the linker.
abbrev k : ℕ
k = 1024

-- bootloader/build.rs.
unfoldable pub bootloader_flash : Region
bootloader_flash = record { origin = base_bootloader_addr; length = 192 * k - base_bootloader_addr }

unfoldable pub bootloader_ram : Region
bootloader_ram = record { origin = 0x20000008; length = 24 * k - 8 }

unfoldable pub mbr_uicr_bootloader_addr : Region
mbr_uicr_bootloader_addr = record { origin = 0x10001014; length = 0x4 }

unfoldable pub uicr_approtect : Region
uicr_approtect = record { origin = 0x10001208; length = 0x4 }

-- firmware/build.rs.
abbrev pub soft_device_ram_reserved : ℕ
soft_device_ram_reserved = 10648

unfoldable pub firmware_flash : Region
firmware_flash = record {
  origin = base_app_addr + signature_header_size;
  length = base_bootloader_addr - base_app_addr - signature_header_size;
}

unfoldable pub firmware_ram : Region
firmware_ram = record {
  origin = 0x20000000 + soft_device_ram_reserved;
  length = 24 * k - soft_device_ram_reserved;
}

-- Whether an address lies in a region.
abbrev pub holds : Region → ℕ → Bool
holds r a = leb r.origin a && ltb a (r.origin + r.length)

-- While the bootloader runs, the protected addresses of the flash are those of the first page and
-- those that the linker gives the bootloader. The area that an update writes is the signature's
-- header and what the linker gives the firmware, and the two crates' regions do not meet.
pub flash_regions :
    (a : ℕ)
    → a < flash_end
    → (is_protected (a / flash_page) (flash_protect_mbr_bootloader bprot_reset)
        ≡ (ltb a flash_page || holds bootloader_flash a))
      × ((leb base_app_addr a && ltb a base_bootloader_addr) ≡ (
          holds (record { origin = base_app_addr; length = signature_header_size }) a
          || holds firmware_flash a))
      × ((holds bootloader_flash a && holds firmware_flash a) ≡ false)
unfolding bootloader_flash firmware_flash
flash_regions a h = (ground (arith, mbr_bootloader_covers a h), ground arith, ground arith)

-- The bootloader enters the firmware by the vectors at the origin of the firmware's region.
pub app_vectors-origin :
    (f : NorFlash) (m : f.Mem)
    → app_vectors f m ≡ record {
      msp = word_at f m firmware_flash.origin;
      rv = word_at f m (firmware_flash.origin + 4);
    }
unfolding app_vectors firmware_flash
app_vectors-origin f m = ground arith
