-- ===== src/Boot/Jump.antt =====
-- bootloader/src/jump_app.rs as built without `debug`: the calls of the MBR and of the SoftDevice,
-- the interrupts, and the instructions of the jump, which are carried out one by one.
pub mod Entered
use prime_ble_firmware.Base.{
  ℕ, ◌+◌, ◌-◌, ◌*◌, ◌/◌, ◌%◌, Bool, true, false, List, [], ◌∷◌, ◌==◌, if◌then◌else◌,
}
use prime_ble_firmware.Base.Bits.{and_word}
use prime_ble_firmware.Consts.{int_vector_table_base, u32_mod}
use prime_ble_firmware.Platform.{NorFlash}
use prime_ble_firmware.Boot.Verify.{not32}
use prime_ble_firmware.Boot.Protect.{Entry, app_vectors}

-- The code of Nordic that is called, on its own state. The numbers beside a state are error codes.
pub record SoftDevice : Type 1 where
  pub Sys : Type 0
  pub command_init_sd : ℕ
  -- command, address
  pub sd_mbr_command : Sys → ℕ → ℕ → Sys × ℕ
  pub sd_softdevice_vector_table_base_set : Sys → ℕ → Sys × ℕ
  -- `critical_section::with` up to its closure, which does not come back
  pub acquire : Sys → Sys

pub data Interrupt : Type 0 where
  spim0_spis0_spi0 rng : Interrupt

-- The registers of the processor that the jump uses. A stack pointer is a multiple of four. What is
-- written to CONTROL is only sure to be in effect after a barrier: `in_effect` is what the
-- instructions go by.
pub record Cpu : Type 0 where
  pub control : ℕ
  pub in_effect : ℕ
  pub msp : ℕ
  pub psp : ℕ
  pub lr : ℕ
  pub pc : ℕ
  pub thumb : Bool

-- The operands of the `asm!` block.
pub record Operands : Type 0 where
  pub tmp : ℕ
  pub spsel : ℕ
  pub new_lr : ℕ
  pub msp : ℕ
  pub rv : ℕ

-- The instructions of the `asm!` block.
pub data Instruction : Type 0 where
  mrs_tmp_control bics_tmp_spsel msr_control_tmp isb msr_msp_msp mov_lr_new_lr bx_rv : Instruction

unfoldable pub execute : Instruction → Operands × Cpu → Operands × Cpu
execute Instruction.mrs_tmp_control (o, cpu) = (record o { tmp = cpu.control }, cpu)
execute Instruction.bics_tmp_spsel (o, cpu) =
    (record o { tmp = and_word 32 o.tmp (not32 o.spsel) }, cpu)
execute Instruction.msr_control_tmp (o, cpu) = (o, record cpu { control = o.tmp })
execute Instruction.isb (o, cpu) = (o, record cpu { in_effect = cpu.control })
execute Instruction.msr_msp_msp (o, cpu) = (o, record cpu { msp = o.msp / 4 * 4 })
execute Instruction.mov_lr_new_lr (o, cpu) = (o, record cpu { lr = o.new_lr })
execute Instruction.bx_rv (o, cpu) = (o, record cpu { pc = o.rv / 2 * 2; thumb = o.rv % 2 == 1 })

-- A branch leaves the block: what stands behind it is not executed.
unfoldable pub execute_all : List Instruction → Operands × Cpu → Operands × Cpu
unfolding execute
execute_all [] s = s
execute_all (Instruction.bx_rv ∷ rest) s = execute Instruction.bx_rv s
execute_all (i ∷ rest) s = execute_all rest (execute i s)

abbrev jump : List Instruction
jump =
    Instruction.mrs_tmp_control ∷ Instruction.bics_tmp_spsel ∷ Instruction.msr_control_tmp
    ∷ Instruction.isb ∷ Instruction.msr_msp_msp ∷ Instruction.mov_lr_new_lr ∷ Instruction.bx_rv ∷ []

module _ (sd : SoftDevice) (f : NorFlash) where
  pub record Machine : Type 0 where
    pub cpu : Cpu
    pub masked : List Interrupt
    pub sys : sd.Sys

  -- What the calls return is logged or dropped.
  unfoldable pub jump_to_app : f.Mem → Machine → Machine
  unfolding execute_all
  jump_to_app m s =
      let forwarded = (sd.sd_mbr_command s.sys sd.command_init_sd int_vector_table_base).0 in
      let based =
        (sd.sd_softdevice_vector_table_base_set (sd.acquire forwarded) int_vector_table_base).0 in
      let entry : Entry = app_vectors f m in
      let operands : Operands = record {
        tmp = 0;
        spsel = 2;
        new_lr = 0xFFFFFFFF;
        msp = entry.msp;
        rv = entry.rv;
      } in
      record {
        cpu = (execute_all jump (operands, s.cpu)).1;
        masked = Interrupt.rng ∷ Interrupt.spim0_spis0_spi0 ∷ s.masked;
        sys = based;
      }
