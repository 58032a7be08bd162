-- ===== src/Tests/Merge.antt =====
-- The theorems on xtask, applied to a HEX file of two records and to a binary.
use mathlib.Core.List.{Perm}
use prime_ble_firmware.Base.{chunks, ◌≡◌, refl, List, [], ◌∷◌, ◌++◌, replicate, some, arith}
use prime_ble_firmware.Protocol.{Bytes}
use prime_ble_firmware.Xtask.Merge.{
  Record, MergeableFile, all_records, merge_files, read_records, file_records, place, emit,
  apply_patch, sort_by_addr, patches_7_3_0,
}
use prime_ble_firmware.Xtask.Merge.RoundTrip.{patch_all, merge_files-read}
use prime_ble_firmware.Xtask.Merge.Order.{IsAscendingFrom, merge_files-perm}
use prime_ble_firmware.Xtask.Merge.Binary.{byte_at, file_records-binary}

-- The first record holds the last patch of `patches_7_3_0`, the binary lies above.
abbrev inputs : List MergeableFile
inputs =
    MergeableFile.binary (5 ∷ 6 ∷ []) 0x1B400
    ∷ MergeableFile.ihex (Record.contents 0x12F4 (1 ∷ 2 ∷ 3 ∷ []) ∷ Record.end_of_file ∷ [])
    ∷ []

abbrev merged : List Record
merged =
    Record.start_linear_address 0
    ∷ Record.contents 0x12F4 (1 ∷ 0x42 ∷ 3 ∷ [])
    ∷ Record.extended_linear_address 1
    ∷ Record.contents 0xB400 (5 ∷ 6 ∷ [])
    ∷ Record.end_of_file
    ∷ []

merges : merge_files inputs (patches_7_3_0 0x42) ≡ some merged
unfolding merge_files file_records emit apply_patch sort_by_addr patches_7_3_0 place chunks
    read_records
merges = refl

merge_files-read_example :
    read_records 0 merged ≡ (0x12F4, 1 ∷ 0x42 ∷ 3 ∷ []) ∷ (0x1B400, 5 ∷ 6 ∷ []) ∷ []
unfolding patch_all file_records apply_patch sort_by_addr patches_7_3_0 place chunks read_records
merge_files-read_example = merge_files-read inputs (patches_7_3_0 0x42) merged merges

-- One whole chunk and two bytes more.
abbrev long_binary : Bytes
long_binary = replicate 32 5 ++ 6 ∷ 7 ∷ []

file_records-binary_example :
    byte_at (file_records (MergeableFile.binary long_binary 0x1B400)) 0x1B421 ≡ some 7
file_records-binary_example = file_records-binary long_binary 0x1B400 33 (omega arith) (omega arith)

abbrev unpatched : List Record
unpatched =
    Record.start_linear_address 0
    ∷ Record.contents 0x12F4 (1 ∷ 2 ∷ 3 ∷ [])
    ∷ Record.extended_linear_address 1
    ∷ Record.contents 0xB400 (5 ∷ 6 ∷ [])
    ∷ Record.end_of_file
    ∷ []

merges_unpatched : merge_files inputs [] ≡ some unpatched
unfolding merge_files file_records emit apply_patch sort_by_addr place chunks read_records
merges_unpatched = refl

merge_files-perm_example :
    Perm (read_records 0 unpatched) (all_records inputs)
    × IsAscendingFrom 0 (read_records 0 unpatched)
merge_files-perm_example = merge_files-perm inputs unpatched merges_unpatched
