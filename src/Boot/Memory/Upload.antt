-- ===== src/Boot/Memory/Upload.antt =====
-- A whole update as bootloader/src/main.rs serves it: an erase, then blocks in the order in which
-- they come, against the image that the host meant to store.
pub mod Area
use prime_ble_firmware.Base.{
  ℕ, suc, ◌+◌, ◌-◌, ◌≤◌, ◌<◌, ◌≡◌, refl, sym, ap, ◌∙◌, true, ◌&&◌, List, [], ◌∷◌, ◌++◌, arith, leb,
  ltb, if◌then◌else◌, length, get_or, length-append, get_or-append, get_or_beyond, get_or_default,
}
use mathlib.Core.List.{append_assoc, append-nil}
use prime_ble_firmware.Consts.{base_app_addr, base_bootloader_addr, app_size}
use prime_ble_firmware.Protocol.{Bytes, Bootloader}
use prime_ble_firmware.Platform.{NorFlash, NorFlashLaws, Digests}
use prime_ble_firmware.Boot.Memory.{
  Store, slice, get_fw_image_slice, erase_firmware, write_firmware_block,
}
use prime_ble_firmware.Boot.Memory.Erase.{erase_firmware_ack}

-- The blocks of an update, with their indices, and the bytes that they make up.
abbrev pub Blocks : Type 0
Blocks = List (ℕ × Bytes)

abbrev pub image : Blocks → Bytes
image [] = []
image ((idx, block) ∷ rest) = block ++ image rest

-- The application's area of a flash that holds an image, over the flash that was there before.
abbrev pub expected_byte : (ℕ → ℕ) → Bytes → ℕ → ℕ
expected_byte before img a =
    if leb base_app_addr a && ltb a base_bootloader_addr
    then get_or img (a - base_app_addr) 255
    else before a

module _ (f : NorFlash) (d : Digests) where
  -- The replies that acknowledge each block.
  abbrev pub acks : Blocks → List Bootloader
  acks [] = []
  acks ((idx, block) ∷ rest) = Bootloader.ack_with_idx_crc idx (d.crc32_iscsi block) ∷ acks rest

  -- The requests of the blocks, served one after the other.
  unfoldable pub write_blocks : Store f → Blocks → Store f × List Bootloader
  write_blocks s [] = (s, [])
  write_blocks s ((idx, block) ∷ rest) =
      let one = write_firmware_block f d s idx block in
      let others = write_blocks one.0 rest in (others.0, one.1 ∷ others.1)

  record Holds (before : ℕ → ℕ) (s : Store f) (img : Bytes) : Type 0 where
    at : s.boot_status.offset ≡ length img
    bytes : (a : ℕ) → f.byte s.mem a ≡ expected_byte before img a

  module _ (laws : NorFlashLaws f) where
    erase_firmware-Holds :
        (s : Store f)
        → (erase_firmware f s).1 ≡ Bootloader.ack_erase_firmware
        → Holds (f.byte s.mem) (erase_firmware f s).0 []
    erase_firmware-Holds s h = record {
      at = ap (λ b. b.offset) (erase_firmware_ack f laws s 0 h).1;
      bytes = λ a. (erase_firmware_ack f laws s a h).0;
    }

    written_byte :
        (before : ℕ → ℕ) (s : Store f) (img block : Bytes) (a : ℕ)
        → Holds before s img
        → length img + length block ≤ app_size
        → (f.write s.mem (base_app_addr + length img) block).1 ≡ true
        → f.byte (f.write s.mem (base_app_addr + length img) block).0 a
          ≡ expected_byte before (img ++ block) a
    written_byte before s img block a holds fits w = ground (
      arith,
      holds.bytes a,
      get_or-append img block (a - base_app_addr) 255,
      get_or_beyond img (a - base_app_addr) 255,
      get_or_beyond block (a - base_app_addr - length img) 255,
      get_or_default block (a - base_app_addr - length img) 0 255,
      laws.range.write_below s.mem (base_app_addr + length img) block a,
      laws.range.write_above s.mem (base_app_addr + length img) block a,
      laws.write_inside s.mem (base_app_addr + length img) block (a - base_app_addr - length img),
    )

    -- An acknowledged block was taken by the flash, at the offset.
    acked_block :
        (s : Store f) (n idx : ℕ) (block : Bytes)
        → s.boot_status.offset ≡ n
        → n + length block ≤ app_size
        → (write_firmware_block f d s idx block).1
          ≡ Bootloader.ack_with_idx_crc idx (d.crc32_iscsi block)
        → let w = f.write s.mem (base_app_addr + n) block in
          let t = (write_firmware_block f d s idx block).0 in
          (w.1 ≡ true) × (t.mem ≡ w.0) × (t.boot_status.offset ≡ n + length block)
    unfolding write_firmware_block
    acked_block s n idx block at fits acked = ground arith

    write_firmware_block-Holds :
        (before : ℕ → ℕ) (s : Store f) (img : Bytes) (idx : ℕ) (block : Bytes)
        → Holds before s img
        → length img + length block ≤ app_size
        → (write_firmware_block f d s idx block).1
          ≡ Bootloader.ack_with_idx_crc idx (d.crc32_iscsi block)
        → Holds before (write_firmware_block f d s idx block).0 (img ++ block)
    write_firmware_block-Holds before s img idx block holds fits acked =
        let (w, stored, moved) = acked_block s (length img) idx block holds.at fits acked in
        record {
          at = moved ∙ sym (length-append img block);
          bytes = λ a. ap (λ m. f.byte m a) stored ∙ written_byte before s img block a holds fits w;
        }

    write_blocks-Holds :
        (before : ℕ → ℕ) (s : Store f) (img : Bytes) (blocks : Blocks)
        → Holds before s img
        → length img + length (image blocks) ≤ app_size
        → (write_blocks s blocks).1 ≡ acks blocks
        → Holds before (write_blocks s blocks).0 (img ++ image blocks)
    unfolding write_blocks
    write_blocks-Holds before s img [] holds fits acked = rw append-nil holds
    write_blocks-Holds before s img ((idx, block) ∷ rest) holds fits acked = rw (← append_assoc) (
        write_blocks-Holds before (write_firmware_block f d s idx block).0 (img ++ block) rest
          (write_firmware_block-Holds before s img idx block holds
            (omega (arith, length-append block (image rest))) (cc))
          (omega (arith, length-append block (image rest), length-append img block)) (cc))

    -- If an erase and then every block are acknowledged, and the blocks together fit the area, the
    -- area holds the blocks end to end and ones behind them, and no byte outside it has changed.
    pub write_blocks-image :
        (s : Store f) (blocks : Blocks) (a : ℕ)
        → (erase_firmware f s).1 ≡ Bootloader.ack_erase_firmware
        → (write_blocks (erase_firmware f s).0 blocks).1 ≡ acks blocks
        → length (image blocks) ≤ app_size
        → f.byte (write_blocks (erase_firmware f s).0 blocks).0.mem a
          ≡ expected_byte (f.byte s.mem) (image blocks) a
    write_blocks-image s blocks a erased acked fits =
        (write_blocks-Holds (f.byte s.mem) (erase_firmware f s).0 [] blocks
            (erase_firmware-Holds s erased) (omega arith) acked).bytes
          a

    slice-eq :
        (m : f.Mem) (xs : Bytes) (a : ℕ)
        → ((i : ℕ) → i < length xs → f.byte m (a + i) ≡ get_or xs i 255)
        → slice f m a (length xs) ≡ xs
    slice-eq m [] a h = refl
    slice-eq m (x ∷ xs) a h = ground (arith, h 0, slice-eq m xs (a + 1) shifted)
      where
        shifted : (i : ℕ) → i < length xs → f.byte m (a + 1 + i) ≡ get_or xs i 255
        shifted i p = ap (f.byte m) (omega arith) ∙ h (suc i) (omega arith)

    -- If an erase and then every block are acknowledged, and the blocks together fit the area, what
    -- the bootloader reads back for the check of the signature, over their length, is the blocks.
    pub get_fw_image_slice-write_blocks :
        (s : Store f) (blocks : Blocks)
        → (erase_firmware f s).1 ≡ Bootloader.ack_erase_firmware
        → (write_blocks (erase_firmware f s).0 blocks).1 ≡ acks blocks
        → length (image blocks) ≤ app_size
        → get_fw_image_slice f
            (write_blocks (erase_firmware f s).0 blocks).0.mem
            base_app_addr
            (length (image blocks))
          ≡ image blocks
    unfolding get_fw_image_slice
    get_fw_image_slice-write_blocks s blocks erased acked fits = ground (
      arith,
      slice-eq (write_blocks (erase_firmware f s).0 blocks).0.mem (image blocks) base_app_addr
          stored,
    )
      where
        stored :
            (i : ℕ)
            → i < length (image blocks)
            → f.byte (write_blocks (erase_firmware f s).0 blocks).0.mem (base_app_addr + i)
              ≡ get_or (image blocks) i 255
        stored i p =
            ground (arith, write_blocks-image s blocks (base_app_addr + i) erased acked fits)
