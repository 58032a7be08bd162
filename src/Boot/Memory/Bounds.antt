-- ===== src/Boot/Memory/Bounds.antt =====
-- Where the arm `WriteFirmwareBlock` of bootloader/src/main.rs may write. A block comes out of the
-- 512 bytes of `raw_buf`, so it is no longer than that.
use prime_ble_firmware.Base.{ℕ, ◌+◌, ◌≤◌, ◌<◌, ◌≡◌, ◌⊎◌, arith, length}
use prime_ble_firmware.Consts.{base_app_addr, base_bootloader_addr, app_size}
use prime_ble_firmware.Protocol.{Bytes}
use prime_ble_firmware.Platform.{NorFlash, NorFlashRange, Digests}
use prime_ble_firmware.Boot.Memory.{Store, BootState, erase_firmware, write_firmware_block}

abbrev pub block_max : ℕ
block_max = 512

-- The offset has passed the end of the area by less than one block.
abbrev pub InRange : BootState → Type 0
InRange b = b.offset ≤ app_size + block_max

module _ (f : NorFlash) (d : Digests) where
  -- The two requests that move the offset keep it in range, so the sums of `u32` do not wrap.
  pub erase_firmware-InRange :
      (s : Store f) → InRange s.boot_status → InRange (erase_firmware f s).0.boot_status
  unfolding erase_firmware
  erase_firmware-InRange s h = ground arith

  pub write_firmware_block-InRange :
      (s : Store f) (idx : ℕ) (block : Bytes)
      → InRange s.boot_status
      → length block ≤ block_max
      → InRange (write_firmware_block f d s idx block).0.boot_status
  unfolding write_firmware_block
  write_firmware_block-InRange s idx block h k = ground arith

  module _ (laws : NorFlashRange f) where
    -- With the offset in range, a block of at most 512 bytes changes no byte before the offset, so
    -- none below the application's area, and none from its own length past the end of the area on.
    pub write_firmware_block_outside :
        (s : Store f) (idx : ℕ) (block : Bytes) (a : ℕ)
        → InRange s.boot_status
        → length block ≤ block_max
        → (a < base_app_addr + s.boot_status.offset) ⊎ (base_bootloader_addr + length block ≤ a)
        → f.byte (write_firmware_block f d s idx block).0.mem a ≡ f.byte s.mem a
    unfolding write_firmware_block
    write_firmware_block_outside s idx block a h k out = ground (
      arith,
      laws.write_below s.mem (base_app_addr + s.boot_status.offset) block a,
      laws.write_above s.mem (base_app_addr + s.boot_status.offset) block a,
    )
