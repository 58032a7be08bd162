-- ===== src/Boot/Protect.antt =====
-- The two functions of bootloader/src/main.rs that set up the BPROT peripheral, and the vectors that
-- bootloader/src/jump_app.rs reads. A region is a page; its bit stays set until a reset, so what
-- matters is which regions have been enabled. A one in DISABLEINDEBUG lifts all protection while a
-- debugger is attached.
pub mod Coverage
pub mod Ignored
use prime_ble_firmware.Base.{ℕ, ◌+◌, ◌*◌, List, [], ◌∷◌, ◌++◌}
use prime_ble_firmware.Consts.{int_vector_table_base}
use prime_ble_firmware.Platform.{NorFlash}

pub record Bprot : Type 0 where
  pub enabled : List ℕ
  pub disableindebug : ℕ

-- As a reset leaves it: no region, and none in effect while a debugger is attached.
abbrev pub bprot_reset : Bprot
bprot_reset = record { enabled = []; disableindebug = 1 }

-- CONFIG0: the MBR. CONFIG1: the bootloader. Then DISABLEINDEBUG.
unfoldable pub flash_protect_mbr_bootloader : Bprot → Bprot
flash_protect_mbr_bootloader p = record {
  enabled = 0 ∷ 47 ∷ 46 ∷ 45 ∷ 44 ∷ 43 ∷ 42 ∷ 41 ∷ 40 ∷ 39 ∷ p.enabled;
  disableindebug = 0;
}

-- CONFIG0 and CONFIG1: the SoftDevice and the application.
unfoldable pub flash_protect_sd_application : Bprot → Bprot
flash_protect_sd_application p = record p {
  enabled =
      (1 ∷ 2 ∷ 3 ∷ 4 ∷ 5 ∷ 6 ∷ 7 ∷ 8 ∷ 9 ∷ 10 ∷ 11 ∷ 12 ∷ 13 ∷ 14 ∷ 15 ∷ 16 ∷ 17 ∷ 18 ∷ 19 ∷ 20 ∷ 21
        ∷ 22 ∷ 23 ∷ 24 ∷ 25 ∷ 26 ∷ 27 ∷ 28 ∷ 29 ∷ 30 ∷ 31 ∷ [])
      ++ (32 ∷ 33 ∷ 34 ∷ 35 ∷ 36 ∷ 37 ∷ 38 ∷ p.enabled);
}

-- Where the processor goes on: the stack pointer and the reset vector.
pub record Entry : Type 0 where
  pub msp : ℕ
  pub rv : ℕ

module _ (f : NorFlash) where
  -- A little-endian word.
  abbrev pub word_at : f.Mem → ℕ → ℕ
  word_at m a =
      f.byte m a + 256 * f.byte m (a + 1) + 65536 * f.byte m (a + 2) + 16777216 * f.byte m (a + 3)

  unfoldable pub app_vectors : f.Mem → Entry
  app_vectors m =
      let addr_header : ℕ = int_vector_table_base in
      record { msp = word_at m addr_header; rv = word_at m (addr_header + 4) }
