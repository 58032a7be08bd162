-- ===== src/Xtask/Merge.antt =====
-- `merge_files` and `patches_7_3_0` of xtask/src/main.rs, between the reading of the input files
-- and the writing of the output: an Intel HEX file is the list of records that the `ihex` crate
-- reads from it or prints, and a binary is its bytes.
pub mod RoundTrip
pub mod Binary
pub mod Order
use prime_ble_firmware.Base.{
  ℕ, zero, suc, ◌+◌, ◌-◌, ◌*◌, ◌/◌, ◌%◌, Bool, true, false, not, ◌&&◌, List, [], ◌∷◌, ◌++◌, Option,
  none, some, leb, ltb, ◌==◌, if◌then◌else◌, length, chunks,
}
use mathlib.Core.List.{reverse}
use prime_ble_firmware.Consts.{u32_mod}
use prime_ble_firmware.Protocol.{Bytes}

-- `ihex::Record`.
pub data Record : Type 0 where
  -- cs, ip
  start_segment_address : ℕ → ℕ → Record
  start_linear_address extended_segment_address extended_linear_address : ℕ → Record
  -- offset, value
  contents : ℕ → Bytes → Record
  end_of_file : Record

pub data MergeableFile : Type 0 where
  ihex : List Record → MergeableFile
  -- bytes, where they go
  binary : Bytes → ℕ → MergeableFile

-- An address and the bytes from it on.
abbrev pub Chunk : Type 0
Chunk = ℕ × Bytes

-- The loop over the records of one file, from an upper address on.
unfoldable pub read_records : ℕ → List Record → List Chunk
read_records upper [] = []
read_records upper (Record.start_segment_address cs ip ∷ rs) =
    read_records ((cs * 16 + ip) % u32_mod) rs
read_records upper (Record.start_linear_address addr ∷ rs) =
    read_records (addr * 65536 % u32_mod) rs
read_records upper (Record.extended_segment_address addr ∷ rs) =
    read_records (addr * 16 % u32_mod) rs
read_records upper (Record.extended_linear_address addr ∷ rs) =
    read_records (addr * 65536 % u32_mod) rs
read_records upper (Record.contents offset value ∷ rs) =
    ((upper + offset) % u32_mod, value) ∷ read_records upper rs
read_records upper (Record.end_of_file ∷ rs) = read_records upper rs

-- The chunks numbered from `i` on, at their addresses.
unfoldable pub place : ℕ → ℕ → ℕ → List Bytes → List Chunk
place size global_offset i [] = []
place size global_offset i (chunk ∷ rest) =
    ((global_offset + i % u32_mod * size) % u32_mod, chunk) ∷ place size global_offset (i + 1) rest

unfoldable pub file_records : MergeableFile → List Chunk
file_records (MergeableFile.ihex rs) = read_records 0 rs
file_records (MergeableFile.binary bytes global_offset) =
    place 32 global_offset 0 (chunks 32 (length bytes) bytes)

abbrev pub all_records : List MergeableFile → List Chunk
all_records [] = []
all_records (file ∷ files) = file_records file ++ all_records files

-- `sort_by_key`, which is stable.
insert_by_addr : Chunk → List Chunk → List Chunk
insert_by_addr c [] = c ∷ []
insert_by_addr c (d ∷ ds) = if leb c.0 d.0 then c ∷ d ∷ ds else d ∷ insert_by_addr c ds

unfoldable pub sort_by_addr : List Chunk → List Chunk
unfolding insert_by_addr
sort_by_addr [] = []
sort_by_addr (c ∷ cs) = insert_by_addr c (sort_by_addr cs)

-- `value[i] = v`.
abbrev pub set : ℕ → ℕ → Bytes → Bytes
set i v [] = []
set zero v (x ∷ xs) = v ∷ xs
set (suc i) v (x ∷ xs) = x ∷ set i v xs

abbrev pub Patches : Type 0
Patches = List (ℕ × ℕ)

-- The next patch is at the head. It is taken off when it falls into the record at hand.
unfoldable pub apply_patch : Patches → Chunk → Chunk × Patches
apply_patch [] (addr, value) = ((addr, value), [])
apply_patch ((patch_addr, patch_value) ∷ patches) (addr, value) =
    if leb addr patch_addr && ltb patch_addr ((addr + length value) % u32_mod)
    then ((addr, set (patch_addr - addr) patch_value value), patches)
    else ((addr, value), (patch_addr, patch_value) ∷ patches)

-- The loop over the sorted records.
unfoldable pub emit : ℕ → Patches → List Chunk → List Record
emit segment_upper_address patches [] = Record.end_of_file ∷ []
emit segment_upper_address patches ((addr, value) ∷ rest) =
    let upper : ℕ = addr / 65536 in
    let patched = apply_patch patches (addr, value) in
    let others = Record.contents (addr % 65536) patched.0.1 ∷ emit upper patched.1 rest in
    if upper == segment_upper_address
    then others
    else Record.extended_linear_address (upper % 65536) ∷ others

-- `none` is the panic of `records[0]`.
out_records : Patches → List Chunk → Option (List Record)
out_records patches [] = none
out_records patches ((addr, value) ∷ rest) = some (
    Record.start_linear_address (addr / 65536) ∷ emit (addr / 65536) patches ((addr, value) ∷ rest))

-- The patches are popped from the end of their vector.
unfoldable pub merge_files : List MergeableFile → Patches → Option (List Record)
unfolding out_records
merge_files inputs patches = out_records (reverse patches) (sort_by_addr (all_records inputs))

unfoldable pub patches_7_3_0 : ℕ → Patches
patches_7_3_0 val =
    (0x0001AE39, val) ∷ (0x0001ADB9, val) ∷ (0x00003009, val) ∷ (0x000012F5, val) ∷ []
