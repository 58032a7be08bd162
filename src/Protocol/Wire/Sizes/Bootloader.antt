-- ===== src/Protocol/Wire/Sizes/Bootloader.antt =====
-- How long the `Bootloader` messages get.
use prime_ble_firmware.Base.{◌++◌, arith, length, ◌≤◌}
use prime_ble_firmware.Protocol.{Bootloader, HostProtocolMessage}
use prime_ble_firmware.Protocol.Wire.{Postcard, PostcardLaws, IsU8, IsU32}
use prime_ble_firmware.Protocol.Wire.Parts.{write_array, write_bytes, length-write_bytes_short}
use prime_ble_firmware.Protocol.Wire.Enums.{secret_save_response_index, trust_level_index}
use prime_ble_firmware.Protocol.Wire.Bootloader.{write_bootloader}
use prime_ble_firmware.Protocol.Wire.Validity.{IsBootloader}
use prime_ble_firmware.Protocol.Wire.Sizes.{
  IsBrief, length-variant_payload, length-two, length-array,
}

module _ (p : Postcard) (laws : PostcardLaws p) where
  pub length-write_bootloader :
      (m : Bootloader)
      → IsBootloader p m
      → IsBrief (HostProtocolMessage.bootloader m)
      → length (write_bootloader p m) ≤ 267
  unfolding write_bootloader
  length-write_bootloader Bootloader.erase_firmware h brief = omega (arith, laws.length-variant 0)
  length-write_bootloader Bootloader.ack_erase_firmware h brief =
      omega (arith, laws.length-variant 1)
  length-write_bootloader Bootloader.nack_erase_firmware_read h brief =
      omega (arith, laws.length-variant 2)
  length-write_bootloader Bootloader.nack_erase_firmware h brief =
      omega (arith, laws.length-variant 3)
  length-write_bootloader Bootloader.nack_erase_firmware_write h brief =
      omega (arith, laws.length-variant 4)
  length-write_bootloader (Bootloader.ack_verify_firmware result hash) h brief = omega (
    arith,
    length-variant_payload p laws 5 33 (p.bool.write result ++ write_array p.u8 hash) (omega arith)
        (length-two p laws (p.bool.write result) (write_array p.u8 hash) 1 32
          (laws.bool_laws.length-write result tt)
          (length-array p laws p.u8 IsU8 1 32 laws.u8_laws hash h)),
  )
  length-write_bootloader (Bootloader.nack_with_idx block_idx) h brief = omega (
    arith,
    length-variant_payload p laws 6 5 (p.usize.write block_idx) (omega arith)
        (laws.usize_laws.length-write block_idx h),
  )
  length-write_bootloader (Bootloader.ack_with_idx block_idx) h brief = omega (
    arith,
    length-variant_payload p laws 7 5 (p.usize.write block_idx) (omega arith)
        (laws.usize_laws.length-write block_idx h),
  )
  length-write_bootloader (Bootloader.ack_with_idx_crc block_idx crc) h brief = omega (
    arith,
    length-variant_payload p laws 8 10 (p.usize.write block_idx ++ p.u32.write crc) (omega arith) (
        length-two p laws (p.usize.write block_idx) (p.u32.write crc) 5 5
          (laws.usize_laws.length-write block_idx h.0) (laws.u32_laws.length-write crc h.1)),
  )
  length-write_bootloader (Bootloader.write_firmware_block block_idx block_data) h brief = omega (
    arith,
    length-variant_payload p laws 9 266 (p.usize.write block_idx ++ write_bytes p block_data)
        (omega arith)
        (length-two p laws (p.usize.write block_idx) (write_bytes p block_data) 5 261
          (laws.usize_laws.length-write block_idx h.0)
          (omega (arith, length-write_bytes_short p laws block_data))),
  )
  length-write_bootloader (Bootloader.firmware_out_of_bounds block_idx) h brief = omega (
    arith,
    length-variant_payload p laws 10 5 (p.usize.write block_idx) (omega arith)
        (laws.usize_laws.length-write block_idx h),
  )
  length-write_bootloader Bootloader.no_cosign_header h brief =
      omega (arith, laws.length-variant 11)
  length-write_bootloader Bootloader.firmware_version h brief =
      omega (arith, laws.length-variant 12)
  length-write_bootloader (Bootloader.ack_firmware_version version) h brief = omega (
    arith,
    length-variant_payload p laws 13 266 (write_bytes p version) (omega arith)
        (omega (arith, length-write_bytes_short p laws version)),
  )
  length-write_bootloader Bootloader.bootloader_version h brief =
      omega (arith, laws.length-variant 14)
  length-write_bootloader (Bootloader.ack_bootloader_version version) h brief = omega (
    arith,
    length-variant_payload p laws 15 266 (write_bytes p version) (omega arith)
        (omega (arith, length-write_bytes_short p laws version)),
  )
  length-write_bootloader (Bootloader.challenge_set secret) h brief = omega (
    arith,
    length-variant_payload p laws 16 40 (write_array p.u32 secret) (omega arith)
        (length-array p laws p.u32 IsU32 5 8 laws.u32_laws secret h),
  )
  length-write_bootloader (Bootloader.ack_challenge_set result) h brief = omega (
    arith,
    length-variant_payload p laws 17 1 (p.variant.write (secret_save_response_index result))
        (omega arith) (laws.length-variant (secret_save_response_index result) (ground arith)),
  )
  length-write_bootloader (Bootloader.boot_firmware trust) h brief = omega (
    arith,
    length-variant_payload p laws 18 1 (p.variant.write (trust_level_index trust)) (omega arith)
        (laws.length-variant (trust_level_index trust) (ground arith)),
  )
