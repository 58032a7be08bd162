-- ===== src/Boot/Memory/Upload/Area.antt =====
-- What the check of the signature, in bootloader/src/verify.rs, reads after a whole update.
use prime_ble_firmware.Base.{
  ℕ, zero, suc, ◌+◌, ◌-◌, ◌≤◌, ◌<◌, ◌≡◌, refl, subst, ◌++◌, arith, length, get_or, replicate,
  length-append, get_or-append, get_or-replicate, get_or_beyond,
}
use prime_ble_firmware.Consts.{base_app_addr, app_size}
use prime_ble_firmware.Protocol.{Bytes, Bootloader}
use prime_ble_firmware.Platform.{NorFlash, NorFlashLaws, Digests}
use prime_ble_firmware.Boot.Memory.{Store, slice, get_fw_image_slice, erase_firmware}
use prime_ble_firmware.Boot.Memory.Upload.{
  Blocks, image, acks, write_blocks, write_blocks-image, slice-eq,
}

-- An image in an area that was erased.
unfoldable pub padded : Bytes → Bytes
padded img = img ++ replicate (app_size - length img) 255

length-replicate : (n x : ℕ) → length (replicate n x) ≡ n
length-replicate zero x = refl
length-replicate (suc n) x = omega (arith, length-replicate n x)

length-padded : (img : Bytes) → length img ≤ app_size → length (padded img) ≡ app_size
unfolding padded
length-padded img fits = omega (
  arith,
  length-append img (replicate (app_size - length img) 255),
  length-replicate (app_size - length img) 255,
)

get_or-padded : (img : Bytes) (i : ℕ) → get_or (padded img) i 255 ≡ get_or img i 255
unfolding padded
get_or-padded img i = ground (
  arith,
  get_or-append img (replicate (app_size - length img) 255) i 255,
  get_or-replicate {A = ℕ} (app_size - length img) 255 (i - length img),
  get_or_beyond img i 255,
)

module _ (f : NorFlash) (d : Digests) (laws : NorFlashLaws f) where
  -- If an erase and then every block are acknowledged, and the blocks together fit the area, the
  -- check of the signature reads the blocks with ones behind them.
  pub area-write_blocks :
      (s : Store f) (blocks : Blocks)
      → (erase_firmware f s).1 ≡ Bootloader.ack_erase_firmware
      → (write_blocks f d (erase_firmware f s).0 blocks).1 ≡ acks f d blocks
      → length (image blocks) ≤ app_size
      → get_fw_image_slice f
          (write_blocks f d (erase_firmware f s).0 blocks).0.mem
          base_app_addr
          app_size
        ≡ padded (image blocks)
  unfolding get_fw_image_slice
  area-write_blocks s blocks erased acked fits =
      let m = (write_blocks f d (erase_firmware f s).0 blocks).0.mem in
      let whole = slice-eq f d laws m (padded (image blocks)) base_app_addr stored in
      subst (λ (n : ℕ). slice f m base_app_addr n ≡ padded (image blocks))
        (length-padded (image blocks) fits) whole
    where
      stored :
          (i : ℕ)
          → i < length (padded (image blocks))
          → f.byte (write_blocks f d (erase_firmware f s).0 blocks).0.mem (base_app_addr + i)
            ≡ get_or (padded (image blocks)) i 255
      stored i p = ground (
        arith,
        length-padded (image blocks) fits,
        get_or-padded (image blocks) i,
        write_blocks-image f d laws s blocks (base_app_addr + i) erased acked fits,
      )
