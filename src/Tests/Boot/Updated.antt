-- ===== src/Tests/Boot/Updated.antt =====
-- An update of two blocks and a boot request after it, on the simulated chip.
use prime_ble_firmware.Base.{◌≡◌, refl, true, false, [], ◌∷◌, arith}
use prime_ble_firmware.Protocol.{Bootloader, HostProtocolMessage, TrustLevel}
use prime_ble_firmware.Boot.Memory.{boot_state_reset, erase_firmware, write_firmware_block}
use prime_ble_firmware.Boot.Memory.Upload.{Blocks, image}
use prime_ble_firmware.Boot.Memory.Upload.Area.{padded}
use prime_ble_firmware.Boot.Protect.{bprot_reset, app_vectors}
use prime_ble_firmware.Boot.Verify.{verify_ecdsa, read_version_and_build_date}
use prime_ble_firmware.Boot.Session.{Loader, Outcome, handle}
use prime_ble_firmware.Boot.Session.Uploaded.{
  IsBootable, handle_all, update_messages, update_acks, handle_all-boots,
}
use prime_ble_firmware.Tests.Chip.{Cells, sim_board, sim_flash_laws}

abbrev cells : Cells
cells = record { cell = λ i. 0xFFFFFFFF; writable = false }

abbrev sevens : Loader sim_board
sevens = record {
  store = record { mem = λ a. 7; boot_status = boot_state_reset };
  vault = record { regs = cells; seal = 0xFFFFFFFF };
  bprot = bprot_reset;
}

abbrev blocks : Blocks
blocks = (0, 2 ∷ 3 ∷ []) ∷ (1, 9 ∷ 1 ∷ []) ∷ []

all_acknowledged :
    (handle_all sim_board sevens (update_messages sim_board blocks)).1
    ≡ update_acks sim_board blocks
unfolding handle_all handle erase_firmware write_firmware_block
all_acknowledged = refl

blocks-IsBootable : IsBootable sim_board TrustLevel.full (padded (image blocks)) (2, 2 ∷ 3 ∷ 9 ∷ [])
unfolding padded verify_ecdsa read_version_and_build_date
blocks-IsBootable = record { parsed = refl; version = (9 ∷ [], []); read = refl; trusted = refl }

handle_all-boots_example :
    let t = (handle_all sim_board sevens (update_messages sim_board blocks)).0 in
    (handle sim_board
      (HostProtocolMessage.bootloader (Bootloader.boot_firmware TrustLevel.full))
      t).1
    ≡ Outcome.boots
        (HostProtocolMessage.bootloader (Bootloader.ack_verify_firmware true (2 ∷ 3 ∷ 9 ∷ [])))
        (app_vectors sim_board.flash t.store.mem)
handle_all-boots_example =
    handle_all-boots sim_board (sim_flash_laws true true true) sevens blocks TrustLevel.full
      (2, 2 ∷ 3 ∷ 9 ∷ []) all_acknowledged (omega arith) blocks-IsBootable
