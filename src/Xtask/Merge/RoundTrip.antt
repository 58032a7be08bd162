-- ===== src/Xtask/Merge/RoundTrip.antt =====
-- What a reader of the output of `merge_files` of xtask/src/main.rs finds, and what the cutting of
-- a binary into chunks keeps.
use prime_ble_firmware.Base.{
  chunks, ℕ, ◌+◌, ◌*◌, ◌/◌, ◌%◌, ◌<◌, ◌≡◌, refl, List, [], ◌∷◌, ◌++◌, some, arith, length,
}
use mathlib.Core.List.{reverse}
use prime_ble_firmware.Consts.{u32_mod}
use prime_ble_firmware.Protocol.{Bytes}
use prime_ble_firmware.Xtask.Merge.{
  Record, MergeableFile, Chunk, Patches, read_records, place, file_records, all_records,
  insert_by_addr, sort_by_addr, apply_patch, emit, out_records, merge_files,
}

-- The records with the patches put in, one after the other.
unfoldable pub patch_all : Patches → List Chunk → List Chunk
patch_all patches [] = []
patch_all patches (c ∷ cs) = let one = apply_patch patches c in one.0 ∷ patch_all one.1 cs

-- Every address is a 32-bit number.
abbrev pub AreWords : List Chunk → Type 0
AreWords [] = Unit {0}
AreWords (c ∷ cs) = (c.0 < u32_mod) × AreWords cs

apply_patch-addr : (patches : Patches) (c : Chunk) → (apply_patch patches c).0.0 ≡ c.0
unfolding apply_patch
apply_patch-addr [] (addr, value) = refl
apply_patch-addr ((patch_addr, patch_value) ∷ patches) (addr, value) = ground arith

read_records-emit :
    (segment : ℕ) (patches : Patches) (cs : List Chunk)
    → segment < 65536
    → AreWords cs
    → read_records (segment * 65536 % u32_mod) (emit segment patches cs) ≡ patch_all patches cs
unfolding read_records emit patch_all
read_records-emit segment patches [] h w = refl
read_records-emit segment patches ((addr, value) ∷ rest) h w = ground (
  arith,
  read_records-emit (addr / 65536) (apply_patch patches (addr, value)).1 rest (omega arith) w.1,
  apply_patch-addr patches (addr, value),
)

AreWords-append : (xs ys : List Chunk) → AreWords xs → AreWords ys → AreWords (xs ++ ys)
AreWords-append [] ys h k = k
AreWords-append (x ∷ xs) ys h k = (h.0, AreWords-append xs ys h.1 k)

read_records-AreWords : (upper : ℕ) (rs : List Record) → AreWords (read_records upper rs)
unfolding read_records
read_records-AreWords upper [] = tt
read_records-AreWords upper (Record.start_segment_address cs ip ∷ rs) =
    read_records-AreWords ((cs * 16 + ip) % u32_mod) rs
read_records-AreWords upper (Record.start_linear_address addr ∷ rs) =
    read_records-AreWords (addr * 65536 % u32_mod) rs
read_records-AreWords upper (Record.extended_segment_address addr ∷ rs) =
    read_records-AreWords (addr * 16 % u32_mod) rs
read_records-AreWords upper (Record.extended_linear_address addr ∷ rs) =
    read_records-AreWords (addr * 65536 % u32_mod) rs
read_records-AreWords upper (Record.contents offset value ∷ rs) =
    (omega arith, read_records-AreWords upper rs)
read_records-AreWords upper (Record.end_of_file ∷ rs) = read_records-AreWords upper rs

place-AreWords : (size offset i : ℕ) (cs : List Bytes) → AreWords (place size offset i cs)
unfolding place
place-AreWords size offset i [] = tt
place-AreWords size offset i (c ∷ cs) = (omega arith, place-AreWords size offset (i + 1) cs)

all_records-AreWords : (files : List MergeableFile) → AreWords (all_records files)
unfolding file_records
all_records-AreWords [] = tt
all_records-AreWords (MergeableFile.ihex rs ∷ files) =
    AreWords-append (read_records 0 rs) (all_records files) (read_records-AreWords 0 rs)
      (all_records-AreWords files)
all_records-AreWords (MergeableFile.binary bytes offset ∷ files) =
    AreWords-append (place 32 offset 0 (chunks 32 (length bytes) bytes)) (all_records files)
      (place-AreWords 32 offset 0 (chunks 32 (length bytes) bytes)) (all_records-AreWords files)

insert_by_addr-AreWords :
    (c : Chunk) (cs : List Chunk) → c.0 < u32_mod → AreWords cs → AreWords (insert_by_addr c cs)
unfolding insert_by_addr
insert_by_addr-AreWords c [] h w = (h, tt)
insert_by_addr-AreWords c (d ∷ ds) h w = ground (arith, insert_by_addr-AreWords c ds h w.1)

sort_by_addr-AreWords : (cs : List Chunk) → AreWords cs → AreWords (sort_by_addr cs)
unfolding sort_by_addr
sort_by_addr-AreWords [] w = tt
sort_by_addr-AreWords (c ∷ cs) w =
    insert_by_addr-AreWords c (sort_by_addr cs) w.0 (sort_by_addr-AreWords cs w.1)

out_records-read :
    (patches : Patches) (cs : List Chunk) (rs : List Record)
    → AreWords cs
    → out_records patches cs ≡ some rs
    → read_records 0 rs ≡ patch_all patches cs
unfolding out_records read_records
out_records-read patches [] rs w h = absurd (cc)
out_records-read patches ((addr, value) ∷ rest) rs w h =
    ground (arith, read_records-emit (addr / 65536) patches ((addr, value) ∷ rest) (omega arith) w)

-- Whoever reads the merged file as `merge_files` reads its inputs finds the records of all inputs,
-- as sorted by address, with the patches put in one after the other, the last one first.
pub merge_files-read :
    (inputs : List MergeableFile) (patches : Patches) (rs : List Record)
    → merge_files inputs patches ≡ some rs
    → read_records 0 rs ≡ patch_all (reverse patches) (sort_by_addr (all_records inputs))
unfolding merge_files
merge_files-read inputs patches rs h =
    out_records-read (reverse patches) (sort_by_addr (all_records inputs)) rs
      (sort_by_addr-AreWords (all_records inputs) (all_records-AreWords inputs)) h
