-- ===== src/Tests/Boot/Update.antt =====
-- The theorems on the flash memory of the bootloader, on an update in two blocks.
use prime_ble_firmware.Base.{◌-◌, ◌≡◌, refl, true, false, [], ◌∷◌, some, arith}
use prime_ble_firmware.Consts.{base_app_addr, app_size}
use prime_ble_firmware.Protocol.{Bootloader, HostProtocolMessage}
use prime_ble_firmware.Protocol.Frame.{ack_msg_send}
use prime_ble_firmware.Platform.{NorFlash}
use prime_ble_firmware.Boot.Memory.{
  Store, boot_state_reset, get_fw_image_slice, erase_firmware, write_firmware_block,
}
use prime_ble_firmware.Boot.Memory.Erase.{erase_firmware_ack, erase_firmware_lost}
use prime_ble_firmware.Boot.Memory.Upload.{
  Blocks, acks, write_blocks, get_fw_image_slice-write_blocks,
}
use prime_ble_firmware.Tests.Chip.{Bank, sim_flash, sim_flash_laws, sim_digests, sim_codec}

abbrev flash : NorFlash
flash = sim_flash true true true

abbrev no_erase : NorFlash
no_erase = sim_flash true false true

abbrev no_write : NorFlash
no_write = sim_flash true true false

-- A flash full of sevens, before an update.
abbrev idle : (f : NorFlash) → f.Mem → Store f
idle f m = record { mem = m; boot_status = boot_state_reset }

abbrev sevens : Bank
sevens a = 7

abbrev ones : Bank
ones a = 255

abbrev two_blocks : Blocks
two_blocks = (0, 2 ∷ 3 ∷ []) ∷ (1, 9 ∷ []) ∷ []

erased : (erase_firmware flash (idle flash sevens)).1 ≡ Bootloader.ack_erase_firmware
unfolding erase_firmware
erased = refl

acked :
    (write_blocks flash sim_digests (erase_firmware flash (idle flash sevens)).0 two_blocks).1
    ≡ acks flash sim_digests two_blocks
unfolding erase_firmware write_blocks write_firmware_block
acked = refl

get_fw_image_slice-write_blocks_example :
    get_fw_image_slice flash
      (write_blocks flash sim_digests (erase_firmware flash (idle flash sevens)).0 two_blocks).0.mem
      base_app_addr
      3
    ≡ 2 ∷ 3 ∷ 9 ∷ []
get_fw_image_slice-write_blocks_example =
    get_fw_image_slice-write_blocks flash sim_digests (sim_flash_laws true true true)
      (idle flash sevens) two_blocks erased acked (omega arith)

erase_firmware_ack_example :
    ((erase_firmware flash (idle flash sevens)).0.mem 0x1B3FF ≡ 7)
    × ((erase_firmware flash (idle flash sevens)).0.boot_status ≡ boot_state_reset)
erase_firmware_ack_example =
    erase_firmware_ack flash (sim_flash_laws true true true) (idle flash sevens) 0x1B3FF erased

lost : (erase_firmware no_write (idle no_write sevens)).1 ≡ Bootloader.nack_erase_firmware_write
unfolding erase_firmware
lost = refl

erase_firmware_lost_example : (erase_firmware no_write (idle no_write sevens)).0.mem 0x1B3FF ≡ 255
erase_firmware_lost_example =
    erase_firmware_lost no_write (sim_flash_laws true true false) (idle no_write sevens) 0x1B3FF
      lost (omega arith) (omega arith)

-- One byte before the end of the area.
abbrev at_end : Store flash
at_end = record {
  mem = ones;
  boot_status = record { offset = app_size - 1; actual_sector = 0x26000; actual_pkt_idx = 190 };
}

framed : ack_msg_send sim_codec HostProtocolMessage.get_state ≡ some (0 ∷ 2 ∷ 7 ∷ 9 ∷ [])
unfolding ack_msg_send
framed = refl
