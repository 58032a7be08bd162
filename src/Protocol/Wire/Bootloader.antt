-- ===== src/Protocol/Wire/Bootloader.antt =====
-- `Bootloader` of host-protocol/src/lib.rs as bytes, and back.
use prime_ble_firmware.Base.{ℕ, ◌++◌, Option, none, some, ◌==◌, if◌then◌else◌}
use prime_ble_firmware.Protocol.{Bytes, Bootloader}
use prime_ble_firmware.Protocol.Wire.{Postcard}
use prime_ble_firmware.Protocol.Wire.Parts.{
  ◌>>=◌, made_of, write_array, read_array, write_bytes, read_bytes, read_str,
}
use prime_ble_firmware.Protocol.Wire.Enums.{
  secret_save_response_index, secret_save_response_at, trust_level_index, trust_level_at, read_enum,
}

module _ (p : Postcard) where
  unfoldable pub write_bootloader : Bootloader → Bytes
  write_bootloader Bootloader.erase_firmware = p.variant.write 0
  write_bootloader Bootloader.ack_erase_firmware = p.variant.write 1
  write_bootloader Bootloader.nack_erase_firmware_read = p.variant.write 2
  write_bootloader Bootloader.nack_erase_firmware = p.variant.write 3
  write_bootloader Bootloader.nack_erase_firmware_write = p.variant.write 4
  write_bootloader (Bootloader.ack_verify_firmware result hash) =
      p.variant.write 5 ++ (p.bool.write result ++ write_array p.u8 hash)
  write_bootloader (Bootloader.nack_with_idx block_idx) =
      p.variant.write 6 ++ p.usize.write block_idx
  write_bootloader (Bootloader.ack_with_idx block_idx) =
      p.variant.write 7 ++ p.usize.write block_idx
  write_bootloader (Bootloader.ack_with_idx_crc block_idx crc) =
      p.variant.write 8 ++ (p.usize.write block_idx ++ p.u32.write crc)
  write_bootloader (Bootloader.write_firmware_block block_idx block_data) =
      p.variant.write 9 ++ (p.usize.write block_idx ++ write_bytes p block_data)
  write_bootloader (Bootloader.firmware_out_of_bounds block_idx) =
      p.variant.write 10 ++ p.usize.write block_idx
  write_bootloader Bootloader.no_cosign_header = p.variant.write 11
  write_bootloader Bootloader.firmware_version = p.variant.write 12
  write_bootloader (Bootloader.ack_firmware_version version) =
      p.variant.write 13 ++ write_bytes p version
  write_bootloader Bootloader.bootloader_version = p.variant.write 14
  write_bootloader (Bootloader.ack_bootloader_version version) =
      p.variant.write 15 ++ write_bytes p version
  write_bootloader (Bootloader.challenge_set secret) =
      p.variant.write 16 ++ write_array p.u32 secret
  write_bootloader (Bootloader.ack_challenge_set result) =
      p.variant.write 17 ++ p.variant.write (secret_save_response_index result)
  write_bootloader (Bootloader.boot_firmware trust) =
      p.variant.write 18 ++ p.variant.write (trust_level_index trust)

  unfoldable pub read_ack_verify_firmware : Bytes → Option (Bootloader × Bytes)
  read_ack_verify_firmware bs = do
    (result, rest) ← p.bool.read bs
    made_of (Bootloader.ack_verify_firmware result) (read_array p.u8 32 rest)

  unfoldable pub read_ack_with_idx_crc : Bytes → Option (Bootloader × Bytes)
  read_ack_with_idx_crc bs = do
    (block_idx, rest) ← p.usize.read bs
    made_of (Bootloader.ack_with_idx_crc block_idx) (p.u32.read rest)

  unfoldable pub read_write_firmware_block : Bytes → Option (Bootloader × Bytes)
  read_write_firmware_block bs = do
    (block_idx, rest) ← p.usize.read bs
    made_of (Bootloader.write_firmware_block block_idx) (read_bytes p rest)

  unfoldable pub read_bootloader_at : ℕ → Bytes → Option (Bootloader × Bytes)
  unfolding read_ack_verify_firmware read_ack_with_idx_crc read_write_firmware_block
  read_bootloader_at n bs =
      if n == 0
      then some (Bootloader.erase_firmware, bs)
      else if n == 1
      then some (Bootloader.ack_erase_firmware, bs)
      else if n == 2
      then some (Bootloader.nack_erase_firmware_read, bs)
      else if n == 3
      then some (Bootloader.nack_erase_firmware, bs)
      else if n == 4
      then some (Bootloader.nack_erase_firmware_write, bs)
      else if n == 5
      then read_ack_verify_firmware bs
      else if n == 6
      then made_of Bootloader.nack_with_idx (p.usize.read bs)
      else if n == 7
      then made_of Bootloader.ack_with_idx (p.usize.read bs)
      else if n == 8
      then read_ack_with_idx_crc bs
      else if n == 9
      then read_write_firmware_block bs
      else if n == 10
      then made_of Bootloader.firmware_out_of_bounds (p.usize.read bs)
      else if n == 11
      then some (Bootloader.no_cosign_header, bs)
      else if n == 12
      then some (Bootloader.firmware_version, bs)
      else if n == 13
      then made_of Bootloader.ack_firmware_version (read_str p bs)
      else if n == 14
      then some (Bootloader.bootloader_version, bs)
      else if n == 15
      then made_of Bootloader.ack_bootloader_version (read_str p bs)
      else if n == 16
      then made_of Bootloader.challenge_set (read_array p.u32 8 bs)
      else if n == 17
      then made_of Bootloader.ack_challenge_set (read_enum p secret_save_response_at bs)
      else if n == 18
      then made_of Bootloader.boot_firmware (read_enum p trust_level_at bs)
      else none

  unfoldable pub read_bootloader : Bytes → Option (Bootloader × Bytes)
  unfolding read_bootloader_at
  read_bootloader bs = do (n, rest) ← p.variant.read bs; read_bootloader_at n rest
