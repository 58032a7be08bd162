-- ===== src/Xtask/Merge/Order.antt =====
-- The order of the output of `merge_files` of xtask/src/main.rs, against the records of its inputs.
use prime_ble_firmware.Base.{
  ℕ, ◌≤◌, ◌≡◌, refl, ap, inl, inr, List, [], ◌∷◌, some, arith, leb, Bool-cases,
}
use mathlib.Core.List.{Perm}
use mathlib.Core.List.Perm
use prime_ble_firmware.Xtask.Merge.{
  Record, MergeableFile, Chunk, read_records, all_records, insert_by_addr, sort_by_addr,
  apply_patch, merge_files,
}
use prime_ble_firmware.Xtask.Merge.RoundTrip.{patch_all, merge_files-read}

-- Each record starts at or above the one before it.
abbrev pub IsAscendingFrom : ℕ → List Chunk → Type 0
IsAscendingFrom a [] = Unit {0}
IsAscendingFrom a (c ∷ cs) = (a ≤ c.0) × IsAscendingFrom c.0 cs

insert_by_addr-IsAscendingFrom :
    (a : ℕ) (c : Chunk) (cs : List Chunk)
    → a ≤ c.0
    → IsAscendingFrom a cs
    → IsAscendingFrom a (insert_by_addr c cs)
unfolding insert_by_addr
insert_by_addr-IsAscendingFrom a c [] le h = (le, tt)
insert_by_addr-IsAscendingFrom a c (d ∷ ds) le h = elim (Bool-cases (leb c.0 d.0)) [
  | inl e ↦ ground arith
  | inr e ↦ ground (arith, insert_by_addr-IsAscendingFrom d.0 c ds (ground arith) h.1)
]

insert_by_addr-perm : (c : Chunk) (cs : List Chunk) → Perm (insert_by_addr c cs) (c ∷ cs)
unfolding insert_by_addr
insert_by_addr-perm c [] = Perm.rfl
insert_by_addr-perm c (d ∷ ds) = elim (Bool-cases (leb c.0 d.0)) [
  | inl e ↦ rw e Perm.rfl
  | inr e ↦ rw e (Perm.trans (Perm.cons d (insert_by_addr-perm c ds)) (Perm.swap c d ds))
]

sort_by_addr-IsAscendingFrom : (cs : List Chunk) → IsAscendingFrom 0 (sort_by_addr cs)
unfolding sort_by_addr
sort_by_addr-IsAscendingFrom [] = tt
sort_by_addr-IsAscendingFrom (c ∷ cs) =
    insert_by_addr-IsAscendingFrom 0 c (sort_by_addr cs) (omega arith)
      (sort_by_addr-IsAscendingFrom cs)

sort_by_addr-perm : (cs : List Chunk) → Perm (sort_by_addr cs) cs
unfolding sort_by_addr
sort_by_addr-perm [] = Perm.rfl
sort_by_addr-perm (c ∷ cs) =
    Perm.trans (insert_by_addr-perm c (sort_by_addr cs)) (Perm.cons c (sort_by_addr-perm cs))

patch_all-nil : (cs : List Chunk) → patch_all [] cs ≡ cs
unfolding patch_all apply_patch
patch_all-nil [] = refl
patch_all-nil (c ∷ cs) = ap (◌∷◌ c) (patch_all-nil cs)

-- Without patches the merged file, read again, has exactly the records of all inputs, each as often
-- as they have it, in ascending order of their addresses.
pub merge_files-perm :
    (inputs : List MergeableFile) (rs : List Record)
    → merge_files inputs [] ≡ some rs
    → Perm (read_records 0 rs) (all_records inputs) × IsAscendingFrom 0 (read_records 0 rs)
merge_files-perm inputs rs h =
    let sorted : read_records 0 rs ≡ sort_by_addr (all_records inputs) =
      ground (
        arith,
        merge_files-read inputs [] rs h,
        patch_all-nil (sort_by_addr (all_records inputs)),
      ) in
    rw sorted
      (sort_by_addr-perm (all_records inputs), sort_by_addr-IsAscendingFrom (all_records inputs))
