-- ===== src/Tests/Device.antt =====
-- The theorems on the life of the chip, on one that stores a secret, loses power, and then launches
-- a developer image.
use prime_ble_firmware.Base.{
  ◌+◌, ◌/◌, ◌≡◌, ◌⊎◌, inl, inr, refl, true, [], ◌∷◌, Option, none, some, arith, ◌==◌, if◌then◌else◌,
}
use prime_ble_firmware.Base.Bits.{and_word}
use prime_ble_firmware.Consts.{base_app_addr, flash_page, uicr_sealed_secret}
use prime_ble_firmware.Protocol.{Bytes, HostProtocolMessage}
use prime_ble_firmware.Platform.{NorFlash, NorFlashRange}
use prime_ble_firmware.Protocol.Frame.{ack_msg_send}
use prime_ble_firmware.Boot.Memory.{get_fw_image_slice}
use prime_ble_firmware.Boot.Secret.{no_answer, write_secret, challenge_set}
use prime_ble_firmware.Boot.Verify.{
  verify_ecdsa, verify_image, verify_fw_image, read_version_and_build_date,
}
use prime_ble_firmware.Boot.Protect.{Bprot, app_vectors, flash_protect_mbr_bootloader, bprot_reset}
use prime_ble_firmware.Boot.Protect.Coverage.{is_protected}
use prime_ble_firmware.Boot.Protect.Ignored.{Nvmc, controlled, BprotLaws}
use prime_ble_firmware.Device.Flash.{Steps-outside}
use prime_ble_firmware.Boot.Session.{Board, Loader, SpiRead, start, handle, round}
use prime_ble_firmware.Boot.Session.Trusted.{IsTrusted}
use prime_ble_firmware.Firmware.Startup.{Fresh, initial_world}
use prime_ble_firmware.Firmware.Server.{Phase}
use prime_ble_firmware.Device.{
  board, Device, Step, Steps, powered, reboot, launched, regs_of, mem_of, challenge,
}
use prime_ble_firmware.Device.Life.{Steps-IsTrusted}
use prime_ble_firmware.Device.Secret.{Forward}
use prime_ble_firmware.Device.Identity.{Steps-Forward, Steps-challenge}
use prime_ble_firmware.Tests.Chip.{
  Bank, Cells, sim_flash, sim_ecc, sim_cosign, sim_flash_range, sim_uicr_laws, sim-DecodeLaws,
}
use prime_ble_firmware.Tests.Peer.{sim_kernel, context, cells}

-- A developer image of version 9.
abbrev developer_bank : Bank
developer_bank a = if a == base_app_addr then 1 else if a == base_app_addr + 1 then 3 else 9

-- Protected pages keep their bytes.
abbrev guard : Bprot → Bank → Bank → Bank
guard p old new a = if is_protected (a / flash_page) p then old a else new a

abbrev open_flash : NorFlash
open_flash = sim_flash true true true

abbrev nvmc : Nvmc
nvmc = record {
  Mem = Bank;
  byte = λ m a. m a;
  read = open_flash.read;
  erase = λ p m from to. (guard p m (open_flash.erase m from to).0, true);
  write = λ p m o bs. (guard p m (open_flash.write m o bs).0, true);
}

flash_range : (p : Bprot) → NorFlashRange (controlled nvmc p)
flash_range p =
    let range = sim_flash_range true true true in
    record {
      length-read = range.length-read;
      read-byte = range.read-byte;
      erase_below = λ m from to a lt. ground (arith, range.erase_below m from to a lt);
      erase_above = λ m from to a le. ground (arith, range.erase_above m from to a le);
      write_below = λ m o bs a lt. ground (arith, range.write_below m o bs a lt);
      write_above = λ m o bs a le. ground (arith, range.write_above m o bs a le);
    }

nvmc_bprot : BprotLaws nvmc
nvmc_bprot = record {
  write_protected = λ p m o bs a on. ground arith;
  erase_protected = λ p m from to a on. ground arith;
}

-- The flash as the bootloader uses it.
abbrev guarded_by : Bprot
guarded_by = flash_protect_mbr_bootloader bprot_reset

abbrev flash : NorFlash
flash = controlled nvmc guarded_by

abbrev chip : Board
chip = board flash sim_ecc sim_cosign sim_kernel

abbrev SimDevice : Type 0
SimDevice = Device flash sim_ecc sim_cosign sim_kernel

abbrev power_on : Cells → SimDevice
power_on r = powered flash sim_ecc sim_cosign sim_kernel developer_bank r

-- Reset, then a secret.
abbrev store_secret : SpiRead
store_secret = SpiRead.received (2 ∷ 17 ∷ [])

abbrev sealed_loader : Loader chip
sealed_loader = (round chip store_secret (start chip developer_bank cells)).0

frame : Option Bytes
frame = some (0 ∷ 2 ∷ 7 ∷ 9 ∷ [])

to_sealed :
    Steps flash sim_ecc sim_cosign sim_kernel (power_on cells) (Device.booting sealed_loader)
unfolding round handle ack_msg_send challenge_set write_secret start frame
to_sealed = Steps.next Steps.here (Step.stays store_secret frame (omega arith) refl)

abbrev boot_request : SpiRead
boot_request = SpiRead.received (3 ∷ [])

abbrev fresh : Fresh sim_kernel
fresh = record { enable = none; data_rx = []; adv_changed = none; air = []; regs = cells }

-- Power is lost, and a developer image is launched.
abbrev again : Loader chip
again = start chip developer_bank sealed_loader.vault.regs

abbrev launched_loader : Loader chip
launched_loader = (round chip boot_request again).0

abbrev firmware : SimDevice
firmware = Device.running launched_loader.store.mem context (record {
  world = initial_world sim_kernel (record fresh { regs = launched_loader.vault.regs });
  phase = Phase.waiting;
})

restarted :
    Step flash sim_ecc sim_cosign sim_kernel (Device.booting sealed_loader) (Device.booting again)
unfolding reboot mem_of regs_of round handle challenge_set start
restarted = Step.power_cycle

launching : Step flash sim_ecc sim_cosign sim_kernel (Device.booting again) firmware
unfolding round handle get_fw_image_slice verify_fw_image verify_image verify_ecdsa ack_msg_send
    read_version_and_build_date start challenge_set write_secret and_word launched frame
launching =
    Step.launches boot_request frame (app_vectors chip.flash developer_bank) fresh context refl

to_firmware : Steps flash sim_ecc sim_cosign sim_kernel (Device.booting sealed_loader) firmware
to_firmware = Steps.next (Steps.next Steps.here restarted) launching

to_all : Steps flash sim_ecc sim_cosign sim_kernel (power_on cells) firmware
to_all = Steps.next (Steps.next to_sealed restarted) launching

Steps-IsTrusted_example : IsTrusted chip launched_loader.store.mem launched_loader.vault.regs
unfolding initial_world
Steps-IsTrusted_example =
    Steps-IsTrusted flash sim_ecc sim_cosign sim_kernel developer_bank (flash_range guarded_by)
      sim_uicr_laws sim-DecodeLaws cells (inl refl) to_all

Steps-outside_example : (launched_loader.store.mem 0x28000 ≡ 9) × Unit {0}
unfolding mem_of start
Steps-outside_example =
    Steps-outside nvmc sim_ecc sim_cosign sim_kernel developer_bank cells nvmc_bprot
      (flash_range guarded_by) sim_uicr_laws sim-DecodeLaws (inl refl) 0x28000 to_all
      (inr (omega arith, omega arith))

Steps-Forward_example : Forward chip.uicr sealed_loader.vault.regs launched_loader.vault.regs
unfolding initial_world regs_of
Steps-Forward_example =
    Steps-Forward flash sim_ecc sim_cosign sim_kernel (flash_range guarded_by) sim_uicr_laws
      sim-DecodeLaws developer_bank cells (inl refl) to_sealed to_firmware

sealed : sealed_loader.vault.regs.cell 8 ≡ uicr_sealed_secret
unfolding round handle challenge_set write_secret start and_word
sealed = refl

Steps-challenge_example :
    (challenge flash sim_ecc sim_cosign sim_kernel firmware 77
      ≡ challenge flash sim_ecc sim_cosign sim_kernel (Device.booting sealed_loader) 77)
    ⊎ (challenge flash sim_ecc sim_cosign sim_kernel firmware 77
        ≡ HostProtocolMessage.challenge_result no_answer)
unfolding regs_of
Steps-challenge_example =
    Steps-challenge flash sim_ecc sim_cosign sim_kernel (flash_range guarded_by) sim_uicr_laws
      sim-DecodeLaws developer_bank cells (inl refl) to_sealed to_firmware 77 sealed
