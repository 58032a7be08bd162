-- ===== src/Boot/Protect/Ignored.antt =====
-- What the BPROT peripheral does for the operations of bootloader/src/main.rs on the flash.
use prime_ble_firmware.Base.{
  ℕ, ◌+◌, ◌/◌, ◌%◌, ◌≡◌, Bool, true, Option, inl, inr, arith, Option-cases,
}
use prime_ble_firmware.Consts.{base_app_addr, base_bootloader_addr, flash_page, u32_mod}
use prime_ble_firmware.Protocol.{Bytes}
use prime_ble_firmware.Platform.{NorFlash, Digests}
use prime_ble_firmware.Boot.Memory.{Store, erase_firmware, write_firmware_block}
use prime_ble_firmware.Boot.Protect.{Bprot}
use prime_ble_firmware.Boot.Protect.Coverage.{is_protected}

-- A flash that leaves the bytes of the protected pages as they are.
pub record IsGuarded (f : NorFlash) (enabled : Bprot) : Type 0 where
  pub write_protected :
      (m : f.Mem) (o : ℕ) (bs : Bytes) (a : ℕ)
      → is_protected (a / flash_page) enabled ≡ true
      → f.byte (f.write m o bs).0 a ≡ f.byte m a
  pub erase_protected :
      (m : f.Mem) (from to a : ℕ)
      → is_protected (a / flash_page) enabled ≡ true
      → f.byte (f.erase m from to).0 a ≡ f.byte m a

-- The NVMC with its BPROT registers: what an erase or a write does depends on them.
pub record Nvmc : Type 1 where
  pub Mem : Type 0
  pub byte : Mem → ℕ → ℕ
  pub read : Mem → ℕ → ℕ → Option Bytes
  pub erase : Bprot → Mem → ℕ → ℕ → Mem × Bool
  pub write : Bprot → Mem → ℕ → Bytes → Mem × Bool

-- The flash while the registers stay as they are.
abbrev pub controlled : Nvmc → Bprot → NorFlash
controlled n p = record {
  Mem = n.Mem;
  byte = n.byte;
  read = n.read;
  erase = n.erase p;
  write = n.write p;
}

-- The product specification: whatever is protected at the time, an erase or a write of a protected
-- page does not change it; the processor faults instead.
pub record BprotLaws (n : Nvmc) : Type 0 where
  pub write_protected :
      (p : Bprot) (m : n.Mem) (o : ℕ) (bs : Bytes) (a : ℕ)
      → is_protected (a / flash_page) p ≡ true
      → n.byte (n.write p m o bs).0 a ≡ n.byte m a
  pub erase_protected :
      (p : Bprot) (m : n.Mem) (from to a : ℕ)
      → is_protected (a / flash_page) p ≡ true
      → n.byte (n.erase p m from to).0 a ≡ n.byte m a

pub controlled-IsGuarded : (n : Nvmc) (p : Bprot) → BprotLaws n → IsGuarded (controlled n p) p
controlled-IsGuarded n p laws = record {
  write_protected = λ m o bs a on. laws.write_protected p m o bs a on;
  erase_protected = λ m from to a on. laws.erase_protected p m from to a on;
}

module _ (f : NorFlash) (enabled : Bprot) (laws : IsGuarded f enabled) where
  pub erase_firmware_protected :
      (s : Store f) (a : ℕ)
      → is_protected (a / flash_page) enabled ≡ true
      → f.byte (erase_firmware f s).0.mem a ≡ f.byte s.mem a
  unfolding erase_firmware
  erase_firmware_protected s a on = elim (Option-cases (f.read s.mem 110592 1024)) [
    | inl e ↦ ground arith
    | inr (saved, e) ↦
        let erased = (f.erase s.mem 110592 base_bootloader_addr).0 in
        ground (
          arith,
          laws.erase_protected s.mem 110592 base_bootloader_addr a on,
          laws.write_protected erased 110592 saved a on,
        )
  ]

  pub write_firmware_block_protected :
      (d : Digests) (s : Store f) (idx : ℕ) (block : Bytes) (a : ℕ)
      → is_protected (a / flash_page) enabled ≡ true
      → f.byte (write_firmware_block f d s idx block).0.mem a ≡ f.byte s.mem a
  unfolding write_firmware_block
  write_firmware_block_protected d s idx block a on = ground (
    arith,
    laws.write_protected s.mem ((base_app_addr + s.boot_status.offset) % u32_mod) block a on,
  )
