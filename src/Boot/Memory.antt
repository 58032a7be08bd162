-- ===== src/Boot/Memory.antt =====
-- The flash side of bootloader/src/main.rs (`BootState`, the arms `EraseFirmware` and
-- `WriteFirmwareBlock`) and `get_fw_image_slice` of bootloader/src/verify.rs. Sums of `u32` wrap, as
-- they do in the release profile.
pub mod Erase
pub mod Bounds
pub mod Upload
use prime_ble_firmware.Base.{
  ℕ, zero, suc, ◌+◌, ◌*◌, ◌/◌, ◌%◌, ◌&&◌, ◌||◌, [], ◌∷◌, Option, none, some, leb, ltb, ◌==◌,
  if◌then◌else◌, length,
}
use prime_ble_firmware.Consts.{base_app_addr, base_bootloader_addr, flash_page, app_size, u32_mod}
use prime_ble_firmware.Protocol.{Bytes, Bootloader}
use prime_ble_firmware.Platform.{NorFlash, Digests}

pub record BootState : Type 0 where
  pub offset : ℕ
  pub actual_sector : ℕ
  pub actual_pkt_idx : ℕ

-- `BootState::default()`, and the result of `BootState::reset`.
abbrev pub boot_state_reset : BootState
boot_state_reset = record { offset = 0; actual_sector = 0; actual_pkt_idx = 0 }

module _ (f : NorFlash) where
  -- `core::slice::from_raw_parts`.
  abbrev pub slice : f.Mem → ℕ → ℕ → Bytes
  slice m a zero = []
  slice m a (suc n) = f.byte m a ∷ slice m (a + 1) n

  unfoldable pub get_fw_image_slice : f.Mem → ℕ → ℕ → Bytes
  get_fw_image_slice m base_address len =
      if ltb base_address base_app_addr
        || ltb (base_app_addr + app_size) ((base_address + len) % u32_mod)
      then []
      else slice m base_address len

  -- What the two arms change.
  pub record Store : Type 0 where
    pub mem : f.Mem
    pub boot_status : BootState

  -- The pages are whole: `start == BASE_APP_ADDR`.
  erase_aligned : Store → Store × Bootloader
  erase_aligned s =
      let erased = f.erase s.mem base_app_addr base_bootloader_addr in
      if erased.1
      then (
        record { mem = erased.0; boot_status = boot_state_reset },
        Bootloader.ack_erase_firmware,
      )
      else (record s { mem = erased.0 }, Bootloader.nack_erase_firmware)

  write_back : ℕ → Bytes → f.Mem → Store × Bootloader
  write_back start saved erased =
      let written = f.write erased start saved in
      (
        record { mem = written.0; boot_status = boot_state_reset },
        if written.1 then Bootloader.ack_erase_firmware else Bootloader.nack_erase_firmware_write,
      )

  -- The first page also holds other code, which is read before the erase and written back.
  erase_saving : ℕ → Store → Option Bytes → Store × Bootloader
  erase_saving start s none = (s, Bootloader.nack_erase_firmware_read)
  erase_saving start s (some saved) =
      let erased = f.erase s.mem start base_bootloader_addr in
      if erased.1
      then write_back start saved erased.0
      else (record s { mem = erased.0 }, Bootloader.nack_erase_firmware)

  unfoldable pub erase_firmware : Store → Store × Bootloader
  unfolding erase_aligned erase_saving write_back
  erase_firmware s =
      let start = base_app_addr / flash_page * flash_page in
      if start == base_app_addr
      then erase_aligned s
      else erase_saving start s (f.read s.mem start (base_app_addr % flash_page))

  -- The new state after a block of `n` bytes is stored.
  unfoldable pub advance : BootState → ℕ → ℕ → BootState
  advance b idx n =
      let offset = (b.offset + n % u32_mod) % u32_mod in
      record {
        offset = offset;
        actual_sector = (base_app_addr + offset / flash_page * flash_page) % u32_mod;
        actual_pkt_idx = idx % u32_mod;
      }

  module _ (d : Digests) where
    unfoldable pub write_firmware_block : Store → ℕ → Bytes → Store × Bootloader
    unfolding advance
    write_firmware_block s idx block =
        let cursor : ℕ = (base_app_addr + s.boot_status.offset) % u32_mod in
        let written = f.write s.mem cursor block in
        if leb base_app_addr cursor && leb cursor base_bootloader_addr
        then (if written.1
            then (
              record { mem = written.0; boot_status = advance s.boot_status idx (length block) },
              Bootloader.ack_with_idx_crc idx (d.crc32_iscsi block),
            )
            else (record s { mem = written.0 }, Bootloader.nack_with_idx idx))
        else (s, Bootloader.firmware_out_of_bounds idx)
