-- ===== src/Xtask/Merge/Binary.antt =====
-- The records that `merge_files` of xtask/src/main.rs makes of a binary.
use prime_ble_firmware.Base.{
  chunks, ℕ, zero, suc, ◌+◌, ◌-◌, ◌*◌, ◌%◌, ◌≤◌, ◌<◌, ◌≡◌, ◌&&◌, List, [], ◌∷◌, Option, none, some,
  arith, leb, ltb, if◌then◌else◌, length, drop, get_or, get_or-take, get_or-drop, length-take,
  length-drop,
}
use prime_ble_firmware.Consts.{u32_mod}
use prime_ble_firmware.Protocol.{Bytes}
use prime_ble_firmware.Xtask.Merge.{MergeableFile, Chunk, place, file_records}

-- The byte at an address, from the first record that covers it.
abbrev pub byte_at : List Chunk → ℕ → Option ℕ
byte_at [] a = none
byte_at ((addr, value) ∷ cs) a =
    if leb addr a && ltb a (addr + length value)
    then some (get_or value (a - addr) 0)
    else byte_at cs a

-- In chunks of size n + 1.
byte_at-place :
    (n fuel offset i j : ℕ) (bytes : Bytes)
    → length bytes ≤ fuel
    → offset + i * suc n + length bytes ≤ u32_mod
    → j < length bytes
    → byte_at (place (suc n) offset i (chunks (suc n) fuel bytes)) (offset + i * suc n + j)
      ≡ some (get_or bytes j 0)
unfolding place chunks
byte_at-place n zero offset i j [] le fits lt = absurd (omega arith)
byte_at-place n zero offset i j (x ∷ bytes) le fits lt = absurd (omega arith)
byte_at-place n (suc fuel) offset i j [] le fits lt = absurd (omega arith)
byte_at-place n (suc fuel) offset i j (x ∷ bytes) le fits lt =
    let xs : Bytes = x ∷ bytes in
    let ks : i * suc n ≡ i * n + i = ground arith in
    let small : i % u32_mod ≡ i = ground arith in
    let next : (i + 1) * suc n ≡ i * suc n + suc n = ground arith in
    ground (
      arith,
      length-take (suc n) xs,
      length-drop (suc n) xs,
      get_or-take (suc n) xs j 0,
      get_or-drop (suc n) xs (j - suc n) 0,
      byte_at-place n fuel offset (i + 1) (j - suc n) (drop (suc n) xs),
    )

-- A binary that ends within the 32-bit address space is cut into records that hold it byte for
-- byte at its place.
pub file_records-binary :
    (bytes : Bytes) (global_offset j : ℕ)
    → global_offset + length bytes ≤ u32_mod
    → j < length bytes
    → byte_at (file_records (MergeableFile.binary bytes global_offset)) (global_offset + j)
      ≡ some (get_or bytes j 0)
unfolding file_records
file_records-binary bytes global_offset j fits lt =
    ground (arith, byte_at-place 31 (length bytes) global_offset 0 j bytes)
