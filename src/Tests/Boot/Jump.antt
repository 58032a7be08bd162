-- ===== src/Tests/Boot/Jump.antt =====
-- The jump to the application, from a processor that runs on the process stack.
use prime_ble_firmware.Base.{ℕ, ◌+◌, ◌≡◌, true, [], ◌==◌, if◌then◌else◌, arith}
use prime_ble_firmware.Consts.{int_vector_table_base}
use prime_ble_firmware.Platform.{NorFlash}
use prime_ble_firmware.Boot.Protect.{app_vectors}
use prime_ble_firmware.Boot.Jump.{SoftDevice, Machine, jump_to_app}
use prime_ble_firmware.Boot.Jump.Entered.{active_sp, jump_to_app-cpu}
use prime_ble_firmware.Tests.Chip.{Bank, sim_flash}

-- Its state is the address that interrupts are forwarded to. Every call fails.
abbrev soft_device : SoftDevice
soft_device = record {
  Sys = ℕ;
  command_init_sd = 3;
  sd_mbr_command = λ sys command address. (sys, 1);
  sd_softdevice_vector_table_base_set = λ sys address. (address, 1);
  acquire = λ sys. sys;
}

abbrev flash : NorFlash
flash = sim_flash true true true

-- The stack pointer is 0x20002002, the reset vector 0x1B501.
abbrev image : Bank
image a =
    if a == int_vector_table_base
    then 2
    else if a == int_vector_table_base + 1
    then 0x20
    else if a == int_vector_table_base + 3
    then 0x20
    else if a == int_vector_table_base + 4
    then 1
    else if a == int_vector_table_base + 5
    then 0xB5
    else if a == int_vector_table_base + 6
    then 1
    else 0

abbrev machine : Machine soft_device flash
machine = record {
  cpu = record {
    control = 3;
    in_effect = 3;
    msp = 0;
    psp = 0x20001000;
    lr = 0;
    pc = 0x27000;
    thumb = true;
  };
  masked = [];
  sys = 0;
}

jump_to_app-cpu_example :
    let t = jump_to_app soft_device flash image machine in
    (active_sp t.cpu ≡ 0x20002000)
    × (t.cpu.pc ≡ 0x1B500)
    × (t.cpu.thumb ≡ true)
    × (t.cpu.control ≡ 1)
    × (t.cpu.lr ≡ 0xFFFFFFFF)
    × (t.cpu.psp ≡ 0x20001000)
unfolding app_vectors
jump_to_app-cpu_example = jump_to_app-cpu soft_device flash image machine (omega arith)
