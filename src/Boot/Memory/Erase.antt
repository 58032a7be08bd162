-- ===== src/Boot/Memory/Erase.antt =====
-- What the arm `EraseFirmware` of bootloader/src/main.rs leaves in the flash.
use prime_ble_firmware.Base.{
  ℕ, ◌-◌, ◌≤◌, ◌<◌, ◌≡◌, ◌≢◌, true, ◌&&◌, some, inl, inr, arith, leb, ltb, if◌then◌else◌,
  Option-cases,
}
use prime_ble_firmware.Consts.{base_app_addr, base_bootloader_addr}
use prime_ble_firmware.Protocol.{Bytes, Bootloader}
use prime_ble_firmware.Platform.{NorFlash, NorFlashLaws}
use prime_ble_firmware.Boot.Memory.{Store, boot_state_reset, erase_firmware}

module _ (f : NorFlash) (laws : NorFlashLaws f) where
  -- 110592 is the start of the first page of the application, 1024 the bytes before it there.
  saved_bytes :
      (m : f.Mem) (saved : Bytes) (a : ℕ)
      → f.read m 110592 1024 ≡ some saved
      → (f.erase m 110592 base_bootloader_addr).1 ≡ true
      → (f.write (f.erase m 110592 base_bootloader_addr).0 110592 saved).1 ≡ true
      → f.byte (f.write (f.erase m 110592 base_bootloader_addr).0 110592 saved).0 a
        ≡ (if leb base_app_addr a && ltb a base_bootloader_addr then 255 else f.byte m a)
  saved_bytes m saved a r e w = ground (
    arith,
    laws.range.length-read m 110592 1024 saved r,
    laws.range.read-byte m 110592 1024 saved (a - 110592) r,
    laws.erase_inside m 110592 base_bootloader_addr a e,
    laws.range.erase_below m 110592 base_bootloader_addr a,
    laws.range.erase_above m 110592 base_bootloader_addr a,
    laws.write_inside (f.erase m 110592 base_bootloader_addr).0 110592 saved (a - 110592) w,
    laws.range.write_below (f.erase m 110592 base_bootloader_addr).0 110592 saved a,
    laws.range.write_above (f.erase m 110592 base_bootloader_addr).0 110592 saved a,
  )

  -- If the erase is acknowledged, the area of the application reads all ones, every other byte of
  -- the flash is what it was, and the next block goes to the start of the area.
  pub erase_firmware_ack :
      (s : Store f) (a : ℕ)
      → (erase_firmware f s).1 ≡ Bootloader.ack_erase_firmware
      → (f.byte (erase_firmware f s).0.mem a
          ≡ (if leb base_app_addr a && ltb a base_bootloader_addr then 255 else f.byte s.mem a))
        × ((erase_firmware f s).0.boot_status ≡ boot_state_reset)
  unfolding erase_firmware
  erase_firmware_ack s a h = elim (Option-cases (f.read s.mem 110592 1024)) [
    | inl e ↦ ground arith
    | inr (saved, e) ↦ ground (arith, saved_bytes s.mem saved a e)
  ]

  -- If the erase is answered neither by an acknowledgment nor by a failed write, nothing has
  -- changed, the offset of the update included.
  pub erase_firmware_refused :
      (s : Store f)
      → (erase_firmware f s).1 ≢ Bootloader.ack_erase_firmware
      → (erase_firmware f s).1 ≢ Bootloader.nack_erase_firmware_write
      → (erase_firmware f s).0 ≡ s
  unfolding erase_firmware
  erase_firmware_refused s p q =
      ground (arith, laws.erase_refused s.mem 110592 base_bootloader_addr)

  -- If the bytes saved from the first page cannot be written back, they are lost: from the start of
  -- that page to the bootloader, the flash reads all ones.
  pub erase_firmware_lost :
      (s : Store f) (a : ℕ)
      → (erase_firmware f s).1 ≡ Bootloader.nack_erase_firmware_write
      → 110592 ≤ a
      → a < base_bootloader_addr
      → f.byte (erase_firmware f s).0.mem a ≡ 255
  unfolding erase_firmware
  erase_firmware_lost s a h lo hi = elim (Option-cases (f.read s.mem 110592 1024)) [
    | inl e ↦ ground arith
    | inr (saved, e) ↦ ground (
      arith,
      laws.erase_inside s.mem 110592 base_bootloader_addr a,
      laws.write_refused (f.erase s.mem 110592 base_bootloader_addr).0 110592 saved,
    )
  ]
