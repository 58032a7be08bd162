-- ===== src/Protocol/Wire/Parts.antt =====
-- The parts that the messages of host-protocol/src/lib.rs are made of: arrays, slices, texts and
-- enumerations without fields.
use prime_ble_firmware.Base.{
  ℕ, zero, suc, ◌+◌, ◌≤◌, ◌<◌, ◌*◌, ◌≡◌, refl, ap, true, List, [], ◌∷◌, ◌++◌, Option, none, some,
  inl, inr, arith, leb, if◌then◌else◌, length, take, drop, length-append, length-take, length-drop,
  Option-cases,
}
use mathlib.Core.List.{append_assoc}
use prime_ble_firmware.Consts.{u32_mod}
use prime_ble_firmware.Protocol.{Bytes}
use prime_ble_firmware.Protocol.Wire.{Format, FormatLaws, Postcard, PostcardLaws}

infixl 5 ◌>>=◌
abbrev pub ◌>>=◌ : {A B : Type 0} → Option A → (A → Option B) → Option B
none >>= f = none
some a >>= f = f a

-- The value that is made of a field, with the bytes that follow the field.
abbrev pub made_of : {A B : Type 0} → (A → B) → Option (A × Bytes) → Option (B × Bytes)
made_of c none = none
made_of c (some (a, rest)) = some (c a, rest)

-- `[T; n]`: the elements one after the other.
unfoldable pub write_array : Format ℕ → List ℕ → Bytes
write_array f [] = []
write_array f (x ∷ xs) = f.write x ++ write_array f xs

unfoldable pub read_array : Format ℕ → ℕ → Bytes → Option (List ℕ × Bytes)
read_array f zero bs = some ([], bs)
read_array f (suc n) bs = do
  (x, rest) ← f.read bs
  (xs, rest') ← read_array f n rest
  some (x ∷ xs, rest')

abbrev pub All : (ℕ → Type 0) → List ℕ → Type 0
All P [] = Unit {0}
All P (x ∷ xs) = P x × All P xs

abbrev pub IsArray : (ℕ → Type 0) → ℕ → List ℕ → Type 0
IsArray P n xs = (length xs ≡ n) × All P xs

-- `&[u8]`: the length, then the bytes as they are.
unfoldable pub write_bytes : Postcard → Bytes → Bytes
write_bytes p bs = p.usize.write (length bs) ++ bs

split : ℕ → Bytes → Option (Bytes × Bytes)
split n bs = if leb n (length bs) then some (take n bs, drop n bs) else none

unfoldable pub read_bytes : Postcard → Bytes → Option (Bytes × Bytes)
unfolding split
read_bytes p bs = do (n, rest) ← p.usize.read bs; split n rest

-- A `heapless::Vec` of at most `cap` elements: a longer one is an error.
unfoldable pub read_vec : Postcard → ℕ → Bytes → Option (Bytes × Bytes)
unfolding read_bytes
read_vec p cap bs = do
  (xs, rest) ← read_bytes p bs
  if leb (length xs) cap then some (xs, rest) else none

-- `&str`, and a `heapless::String` of at most `cap` bytes.
unfoldable pub read_str : Postcard → Bytes → Option (Bytes × Bytes)
unfolding read_bytes
read_str p bs = do (xs, rest) ← read_bytes p bs; if p.is_utf8 xs then some (xs, rest) else none

unfoldable pub read_string : Postcard → ℕ → Bytes → Option (Bytes × Bytes)
unfolding read_str
read_string p cap bs = do
  (xs, rest) ← read_str p bs
  if leb (length xs) cap then some (xs, rest) else none

module _ (f : Format ℕ) (P : ℕ → Type 0) (size : ℕ) (laws : FormatLaws f P size) where
  pub read_array-write_array :
      (xs : List ℕ) (rest : Bytes)
      → All P xs
      → read_array f (length xs) (write_array f xs ++ rest) ≡ some (xs, rest)
  unfolding read_array write_array
  read_array-write_array [] rest h = refl
  read_array-write_array (x ∷ xs) rest h = ground (
    arith,
    append_assoc (f.write x) (write_array f xs) rest,
    laws.read-write x (write_array f xs ++ rest),
    read_array-write_array xs rest,
  )

  pub read_array-IsArray :
      (n : ℕ) (bs : Bytes) (xs : List ℕ) (rest : Bytes)
      → read_array f n bs ≡ some (xs, rest)
      → IsArray P n xs × (length rest ≤ length bs)
  unfolding read_array
  read_array-IsArray zero bs xs rest h = ground arith
  read_array-IsArray (suc n) bs xs rest h = elim (Option-cases (f.read bs)) [
    | inl e ↦ ground arith
    | inr ((x, more), e) ↦ elim (Option-cases (read_array f n more)) [
      | inl e' ↦ ground arith
      | inr ((ys, rest'), e') ↦ ground (
        arith,
        laws.read-IsValue bs x more e,
        laws.read-le bs x more e,
        read_array-IsArray n more ys rest' e',
      )
    ]
  ]

  pub length-write_array : (xs : List ℕ) → All P xs → length (write_array f xs) ≤ length xs * size
  unfolding write_array
  length-write_array [] h = omega arith
  length-write_array (x ∷ xs) h = grind (
    arith,
    length-append (f.write x) (write_array f xs),
    laws.length-write x h.0,
    length-write_array xs h.1,
  )

take-append : (xs rest : Bytes) → take (length xs) (xs ++ rest) ≡ xs
take-append [] rest = refl
take-append (x ∷ xs) rest = ap (λ r. x ∷ r) (take-append xs rest)

drop-append : (xs rest : Bytes) → drop (length xs) (xs ++ rest) ≡ rest
drop-append [] rest = refl
drop-append (x ∷ xs) rest = drop-append xs rest

module _ (p : Postcard) (laws : PostcardLaws p) where
  pub read_bytes-write_bytes :
      (xs rest : Bytes)
      → length xs < u32_mod
      → read_bytes p (write_bytes p xs ++ rest) ≡ some (xs, rest)
  unfolding read_bytes write_bytes
  read_bytes-write_bytes xs rest h = ground (
    arith,
    append_assoc (p.usize.write (length xs)) xs rest,
    laws.usize_laws.read-write (length xs) (xs ++ rest),
    length-append xs rest,
    take-append xs rest,
    drop-append xs rest,
  )

  -- What is read is no longer than what it was read from.
  pub read_bytes-le :
      (bs xs rest : Bytes)
      → read_bytes p bs ≡ some (xs, rest)
      → (length xs + length rest ≤ length bs) × (length xs < u32_mod)
  unfolding read_bytes
  read_bytes-le bs xs rest h = elim (Option-cases (p.usize.read bs)) [
    | inl e ↦ ground arith
    | inr ((n, more), e) ↦ ground (
      arith,
      laws.usize_laws.read-le bs n more e,
      laws.usize_laws.read-IsValue bs n more e,
      length-take n more,
      length-drop n more,
    )
  ]

  pub length-write_bytes :
      (xs : Bytes) → length xs < u32_mod → length (write_bytes p xs) ≤ 5 + length xs
  unfolding write_bytes
  length-write_bytes xs h = omega (
    arith,
    length-append (p.usize.write (length xs)) xs,
    laws.usize_laws.length-write (length xs) h,
  )

  pub length-write_bytes_short :
      (xs : Bytes) → length xs < 16384 → length (write_bytes p xs) ≤ 2 + length xs
  unfolding write_bytes
  length-write_bytes_short xs h =
      omega (arith, length-append (p.usize.write (length xs)) xs, laws.length-usize (length xs) h)

  pub read_vec-write_bytes :
      (cap : ℕ) (xs rest : Bytes)
      → length xs < u32_mod
      → length xs ≤ cap
      → read_vec p cap (write_bytes p xs ++ rest) ≡ some (xs, rest)
  unfolding read_vec
  read_vec-write_bytes cap xs rest h le = ground (arith, read_bytes-write_bytes xs rest)

  pub read_str-write_bytes :
      (xs rest : Bytes)
      → length xs < u32_mod
      → p.is_utf8 xs ≡ true
      → read_str p (write_bytes p xs ++ rest) ≡ some (xs, rest)
  unfolding read_str
  read_str-write_bytes xs rest h ok = ground (arith, read_bytes-write_bytes xs rest)

  pub read_string-write_bytes :
      (cap : ℕ) (xs rest : Bytes)
      → length xs < u32_mod
      → p.is_utf8 xs ≡ true
      → length xs ≤ cap
      → read_string p cap (write_bytes p xs ++ rest) ≡ some (xs, rest)
  unfolding read_string
  read_string-write_bytes cap xs rest h ok le = ground (arith, read_str-write_bytes xs rest)
