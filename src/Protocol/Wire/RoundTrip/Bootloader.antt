-- ===== src/Protocol/Wire/RoundTrip/Bootloader.antt =====
-- What is written of a `Bootloader` message is read back as that message.
use prime_ble_firmware.Base.{◌≡◌, some, ◌++◌, arith}
use mathlib.Core.List.{append_assoc}
use prime_ble_firmware.Protocol.{Bytes, Bootloader}
use prime_ble_firmware.Protocol.Wire.{Postcard, PostcardLaws, IsU8, IsU32}
use prime_ble_firmware.Protocol.Wire.Parts.{
  write_array, write_bytes, read_array-write_array, read_bytes-write_bytes, read_str-write_bytes,
}
use prime_ble_firmware.Protocol.Wire.Enums.{secret_save_response_index, trust_level_index}
use prime_ble_firmware.Protocol.Wire.Bootloader.{write_bootloader, read_bootloader}
use prime_ble_firmware.Protocol.Wire.Validity.{IsBootloader}
use prime_ble_firmware.Protocol.Wire.RoundTrip.{
  read_variant-write, read_unit-write, read_secret_save_response-write, read_trust_level-write,
}

module _ (p : Postcard) (laws : PostcardLaws p) where
  pub read_bootloader-write_bootloader :
      (m : Bootloader) (rest : Bytes)
      → IsBootloader p m
      → read_bootloader p (write_bootloader p m ++ rest) ≡ some (m, rest)
  unfolding read_bootloader write_bootloader
  read_bootloader-write_bootloader Bootloader.erase_firmware rest h =
      ground (arith, read_unit-write p laws 0 rest)
  read_bootloader-write_bootloader Bootloader.ack_erase_firmware rest h =
      ground (arith, read_unit-write p laws 1 rest)
  read_bootloader-write_bootloader Bootloader.nack_erase_firmware_read rest h =
      ground (arith, read_unit-write p laws 2 rest)
  read_bootloader-write_bootloader Bootloader.nack_erase_firmware rest h =
      ground (arith, read_unit-write p laws 3 rest)
  read_bootloader-write_bootloader Bootloader.nack_erase_firmware_write rest h =
      ground (arith, read_unit-write p laws 4 rest)
  read_bootloader-write_bootloader (Bootloader.ack_verify_firmware result hash) rest h = ground (
    arith,
    read_variant-write p laws 5 (p.bool.write result ++ write_array p.u8 hash) rest,
    append_assoc (p.bool.write result) (write_array p.u8 hash) rest,
    laws.bool_laws.read-write result (write_array p.u8 hash ++ rest),
    read_array-write_array p.u8 IsU8 1 laws.u8_laws hash rest,
  )
  read_bootloader-write_bootloader (Bootloader.nack_with_idx block_idx) rest h = ground (
    arith,
    read_variant-write p laws 6 (p.usize.write block_idx) rest,
    laws.usize_laws.read-write block_idx rest,
  )
  read_bootloader-write_bootloader (Bootloader.ack_with_idx block_idx) rest h = ground (
    arith,
    read_variant-write p laws 7 (p.usize.write block_idx) rest,
    laws.usize_laws.read-write block_idx rest,
  )
  read_bootloader-write_bootloader (Bootloader.ack_with_idx_crc block_idx crc) rest h = ground (
    arith,
    read_variant-write p laws 8 (p.usize.write block_idx ++ p.u32.write crc) rest,
    append_assoc (p.usize.write block_idx) (p.u32.write crc) rest,
    laws.usize_laws.read-write block_idx (p.u32.write crc ++ rest),
    laws.u32_laws.read-write crc rest,
  )
  read_bootloader-write_bootloader (Bootloader.write_firmware_block block_idx block_data) rest h =
      ground (
        arith,
        read_variant-write p laws 9 (p.usize.write block_idx ++ write_bytes p block_data) rest,
        append_assoc (p.usize.write block_idx) (write_bytes p block_data) rest,
        laws.usize_laws.read-write block_idx (write_bytes p block_data ++ rest),
        read_bytes-write_bytes p laws block_data rest,
      )
  read_bootloader-write_bootloader (Bootloader.firmware_out_of_bounds block_idx) rest h = ground (
    arith,
    read_variant-write p laws 10 (p.usize.write block_idx) rest,
    laws.usize_laws.read-write block_idx rest,
  )
  read_bootloader-write_bootloader Bootloader.no_cosign_header rest h =
      ground (arith, read_unit-write p laws 11 rest)
  read_bootloader-write_bootloader Bootloader.firmware_version rest h =
      ground (arith, read_unit-write p laws 12 rest)
  read_bootloader-write_bootloader (Bootloader.ack_firmware_version version) rest h = ground (
    arith,
    read_variant-write p laws 13 (write_bytes p version) rest,
    read_str-write_bytes p laws version rest,
  )
  read_bootloader-write_bootloader Bootloader.bootloader_version rest h =
      ground (arith, read_unit-write p laws 14 rest)
  read_bootloader-write_bootloader (Bootloader.ack_bootloader_version version) rest h = ground (
    arith,
    read_variant-write p laws 15 (write_bytes p version) rest,
    read_str-write_bytes p laws version rest,
  )
  read_bootloader-write_bootloader (Bootloader.challenge_set secret) rest h = ground (
    arith,
    read_variant-write p laws 16 (write_array p.u32 secret) rest,
    read_array-write_array p.u32 IsU32 5 laws.u32_laws secret rest,
  )
  read_bootloader-write_bootloader (Bootloader.ack_challenge_set result) rest h = ground (
    arith,
    read_variant-write p laws 17 (p.variant.write (secret_save_response_index result)) rest,
    read_secret_save_response-write p laws result rest,
  )
  read_bootloader-write_bootloader (Bootloader.boot_firmware trust) rest h = ground (
    arith,
    read_variant-write p laws 18 (p.variant.write (trust_level_index trust)) rest,
    read_trust_level-write p laws trust rest,
  )
