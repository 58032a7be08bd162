-- ===== src/Protocol/Compatibility/Bootloader.antt =====
-- The bootloader messages that host-protocol/src/lib.rs tests, with the bytes that it wants of them.
use prime_ble_firmware.Base.{List, [], ◌∷◌, replicate, true}
use prime_ble_firmware.Protocol.{
  Bytes, HostProtocolMessage, Bootloader, TrustLevel, SecretSaveResponse,
}

-- `check_bootloader_messages`.
abbrev pub bootloader_messages : List (HostProtocolMessage × Bytes)
bootloader_messages =
    (HostProtocolMessage.bootloader Bootloader.erase_firmware, 1 ∷ 0 ∷ [])
    ∷ (HostProtocolMessage.bootloader Bootloader.ack_erase_firmware, 1 ∷ 1 ∷ [])
    ∷ (HostProtocolMessage.bootloader Bootloader.nack_erase_firmware_read, 1 ∷ 2 ∷ [])
    ∷ (HostProtocolMessage.bootloader Bootloader.nack_erase_firmware, 1 ∷ 3 ∷ [])
    ∷ (HostProtocolMessage.bootloader Bootloader.nack_erase_firmware_write, 1 ∷ 4 ∷ [])
    ∷ (
      HostProtocolMessage.bootloader (Bootloader.ack_verify_firmware true (replicate 32 0)),
      1 ∷ 5 ∷ 1 ∷ replicate 32 0,
    )
    ∷ (
      HostProtocolMessage.bootloader (Bootloader.nack_with_idx 0xFFFFFFFF),
      1 ∷ 6 ∷ 255 ∷ 255 ∷ 255 ∷ 255 ∷ 15 ∷ [],
    )
    ∷ (
      HostProtocolMessage.bootloader (Bootloader.ack_with_idx 0xFFFFFFFF),
      1 ∷ 7 ∷ 255 ∷ 255 ∷ 255 ∷ 255 ∷ 15 ∷ [],
    )
    ∷ (
      HostProtocolMessage.bootloader (Bootloader.ack_with_idx_crc 0xFFFFFFFF 0xFFFFFFFF),
      1 ∷ 8 ∷ 255 ∷ 255 ∷ 255 ∷ 255 ∷ 15 ∷ 255 ∷ 255 ∷ 255 ∷ 255 ∷ 15 ∷ [],
    )
    ∷ (
      HostProtocolMessage.bootloader
          (Bootloader.write_firmware_block 0xFFFFFFFF (replicate 256 0xFF)),
      1 ∷ 9 ∷ 255 ∷ 255 ∷ 255 ∷ 255 ∷ 15 ∷ 128 ∷ 2 ∷ replicate 256 255,
    )
    ∷ (
      HostProtocolMessage.bootloader (Bootloader.firmware_out_of_bounds 0xFFFFFFFF),
      1 ∷ 10 ∷ 255 ∷ 255 ∷ 255 ∷ 255 ∷ 15 ∷ [],
    )
    ∷ (HostProtocolMessage.bootloader Bootloader.no_cosign_header, 1 ∷ 11 ∷ [])
    ∷ (HostProtocolMessage.bootloader Bootloader.firmware_version, 1 ∷ 12 ∷ [])
    ∷ (
      HostProtocolMessage.bootloader
          (Bootloader.ack_firmware_version (b'v' ∷ b'1' ∷ b'.' ∷ b'2' ∷ b'.' ∷ b'3' ∷ [])),
      1 ∷ 13 ∷ 6 ∷ 118 ∷ 49 ∷ 46 ∷ 50 ∷ 46 ∷ 51 ∷ [],
    )
    ∷ (HostProtocolMessage.bootloader Bootloader.bootloader_version, 1 ∷ 14 ∷ [])
    ∷ (
      HostProtocolMessage.bootloader (
          Bootloader.ack_bootloader_version (
            b'v' ∷ b'1' ∷ b'.' ∷ b'2' ∷ b'.' ∷ b'3' ∷ b'-' ∷ b'l' ∷ b'o' ∷ b'n' ∷ b'g' ∷ b'v' ∷ b'e'
            ∷ b'r' ∷ b's' ∷ b'i' ∷ b'o' ∷ b'n' ∷ b's' ∷ b't' ∷ b'r' ∷ b'i' ∷ b'n' ∷ b'g' ∷ [])),
      1 ∷ 15 ∷ 24 ∷ 118 ∷ 49 ∷ 46 ∷ 50 ∷ 46 ∷ 51 ∷ 45 ∷ 108 ∷ 111 ∷ 110 ∷ 103 ∷ 118 ∷ 101 ∷ 114
          ∷ 115 ∷ 105 ∷ 111 ∷ 110 ∷ 115 ∷ 116 ∷ 114 ∷ 105 ∷ 110 ∷ 103 ∷ [],
    )
    ∷ (
      HostProtocolMessage.bootloader (Bootloader.challenge_set (replicate 8 0xFFFFFFFF)),
      1 ∷ 16 ∷ 255 ∷ 255 ∷ 255 ∷ 255 ∷ 15 ∷ 255 ∷ 255 ∷ 255 ∷ 255 ∷ 15 ∷ 255 ∷ 255 ∷ 255 ∷ 255 ∷ 15
          ∷ 255 ∷ 255 ∷ 255 ∷ 255 ∷ 15 ∷ 255 ∷ 255 ∷ 255 ∷ 255 ∷ 15 ∷ 255 ∷ 255 ∷ 255 ∷ 255 ∷ 15
          ∷ 255 ∷ 255 ∷ 255 ∷ 255 ∷ 15 ∷ 255 ∷ 255 ∷ 255 ∷ 255 ∷ 15 ∷ [],
    )
    ∷ (
      HostProtocolMessage.bootloader (Bootloader.ack_challenge_set SecretSaveResponse.error),
      1 ∷ 17 ∷ 2 ∷ [],
    )
    ∷ (HostProtocolMessage.bootloader (Bootloader.boot_firmware TrustLevel.full), 1 ∷ 18 ∷ 0 ∷ [])
    ∷ (
      HostProtocolMessage.bootloader (Bootloader.boot_firmware TrustLevel.developer),
      1 ∷ 18 ∷ 1 ∷ [],
    )
    ∷ []
