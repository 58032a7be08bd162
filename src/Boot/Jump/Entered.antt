-- ===== src/Boot/Jump/Entered.antt =====
-- In what state bootloader/src/jump_app.rs enters the application.
use prime_ble_firmware.Base.{ℕ, ◌+◌, ◌*◌, ◌/◌, ◌%◌, ◌<◌, ◌≡◌, refl, ◌==◌, if◌then◌else◌, arith}
use prime_ble_firmware.Base.Bits.{and_word, and_word_clear}
use prime_ble_firmware.Consts.{u32_mod}
use prime_ble_firmware.Platform.{NorFlash}
use prime_ble_firmware.Boot.Verify.{not32}
use prime_ble_firmware.Boot.Protect.{app_vectors}
use prime_ble_firmware.Boot.Jump.{SoftDevice, Cpu, Machine, jump_to_app, execute_all, execute}

-- The stack pointer in use: bit 1 of the CONTROL in effect chooses.
abbrev pub active_sp : Cpu → ℕ
active_sp cpu = if cpu.in_effect / 2 % 2 == 0 then cpu.msp else cpu.psp

-- Bit 1 of a word is cleared, and the others are kept.
clear_spsel :
    (control : ℕ)
    → control < u32_mod
    → and_word 32 control (not32 2) ≡ control / 4 * 4 + control % 2
clear_spsel control lt = and_word_clear 30 control (not32 2) (omega arith) refl refl

module _ (sd : SoftDevice) (f : NorFlash) where
  -- The application is entered at its reset vector, in Thumb state if the vector says so, on the main
  -- stack, whose pointer is the first word of the vector table, with the other bits of CONTROL
  -- kept; a return would go to 0xFFFFFFFF.
  pub jump_to_app-cpu :
      (m : f.Mem) (s : Machine sd f)
      → s.cpu.control < u32_mod
      → let t = jump_to_app sd f m s in
        let entry = app_vectors f m in
        (active_sp t.cpu ≡ entry.msp / 4 * 4)
        × (t.cpu.pc ≡ entry.rv / 2 * 2)
        × (t.cpu.thumb ≡ entry.rv % 2 == 1)
        × (t.cpu.control ≡ s.cpu.control / 4 * 4 + s.cpu.control % 2)
        × (t.cpu.lr ≡ 0xFFFFFFFF)
        × (t.cpu.psp ≡ s.cpu.psp)
  unfolding jump_to_app execute_all execute
  jump_to_app-cpu m s lt = ground (arith, clear_spsel s.cpu.control lt)
