-- ===== src/Tests/Wire.antt =====
-- postcard's wire format, written out for the tests: the parameter of Protocol.Wire. Of texts it
-- takes the ASCII ones only.
use prime_ble_firmware.Base.{
  ℕ, zero, suc, ◌+◌, ◌-◌, ◌*◌, ◌/◌, ◌%◌, ◌^◌, ◌≤◌, ◌<◌, ◌≡◌, Bool, true, false, [], ◌∷◌, ◌++◌,
  Option, none, some, length, all, ltb, ◌==◌, if◌then◌else◌, arith, inl, inr, Option-cases,
}
use prime_ble_firmware.Base.Int.{ℤ, pos, negsuc}
use prime_ble_firmware.Consts.{u32_mod}
use prime_ble_firmware.Protocol.{Bytes}
use prime_ble_firmware.Protocol.Wire.{Format, FormatLaws, Postcard, PostcardLaws, IsU8, IsI8, IsAny}
use prime_ble_firmware.Protocol.Wire.Parts.{◌>>=◌}

-- Seven bits a byte, the low ones first, in at most `size` bytes.
unfoldable pub write_varint : ℕ → ℕ → Bytes
write_varint zero n = []
write_varint (suc size) n =
    let rest = write_varint size (n / 128) in if ltb n 128 then n ∷ [] else (n % 128 + 128) ∷ rest

unfoldable pub read_varint : ℕ → Bytes → Option (ℕ × Bytes)
read_varint zero bs = none
read_varint (suc size) [] = none
read_varint (suc size) (b ∷ bs) =
    let more = read_varint size bs in
    if ltb b 128 then some (b, bs) else (do (n, rest) ← more; some (b - 128 + 128 * n, rest))

unfoldable pub below : ℕ → Option (ℕ × Bytes) → Option (ℕ × Bytes)
below bound none = none
below bound (some (n, rest)) = if ltb n bound then some (n, rest) else none

abbrev pub varint : ℕ → ℕ → Format ℕ
varint size bound = record {
  write = write_varint size;
  read = λ bs. below bound (read_varint size bs);
}

read_varint-write_varint :
    (size n : ℕ) (rest : Bytes)
    → n < 128 ^ suc size
    → read_varint (suc size) (write_varint (suc size) n ++ rest) ≡ some (n, rest)
unfolding read_varint write_varint
read_varint-write_varint zero n rest lt = ground arith
read_varint-write_varint (suc size) n rest lt =
    ground (arith, read_varint-write_varint size (n / 128) rest)

length-write_varint : (size n : ℕ) → length (write_varint size n) ≤ size
unfolding write_varint
length-write_varint zero n = omega arith
length-write_varint (suc size) n = ground (arith, length-write_varint size (n / 128))

read_varint-le :
    (size : ℕ) (bs : Bytes) (n : ℕ) (rest : Bytes)
    → read_varint size bs ≡ some (n, rest)
    → length rest ≤ length bs
unfolding read_varint
read_varint-le zero bs n rest e = absurd (ground arith)
read_varint-le (suc size) [] n rest e = absurd (ground arith)
read_varint-le (suc size) (b ∷ bs) n rest e = elim (Option-cases (read_varint size bs)) [
  | inl e' ↦ ground arith
  | inr ((m, rest'), e') ↦ ground (arith, read_varint-le size bs m rest' e')
]

varint-FormatLaws :
    (size bound : ℕ)
    → bound ≤ 128 ^ suc size
    → FormatLaws (varint (suc size) bound) (λ n. n < bound) (suc size)
unfolding below
varint-FormatLaws size bound le = record {
  read-write = λ n rest lt. ground (arith, read_varint-write_varint size n rest);
  read-IsValue = λ bs n rest e. elim (Option-cases (read_varint (suc size) bs)) [
    | inl e' ↦ ground arith
    | inr ((m, rest'), e') ↦ ground arith
  ];
  read-le = λ bs n rest e. elim (Option-cases (read_varint (suc size) bs)) [
    | inl e' ↦ ground arith
    | inr ((m, rest'), e') ↦ ground (arith, read_varint-le (suc size) bs m rest' e')
  ];
  length-write = λ n lt. length-write_varint (suc size) n;
}

abbrev i8_byte : ℤ → ℕ
i8_byte (pos n) = n
i8_byte (negsuc n) = 255 - n

read_i8 : Bytes → Option (ℤ × Bytes)
read_i8 [] = none
read_i8 (b ∷ bs) =
    if ltb b 128 then some (pos b, bs) else if ltb b 256 then some (negsuc (255 - b), bs) else none

read_u8 : Bytes → Option (ℕ × Bytes)
read_u8 [] = none
read_u8 (b ∷ bs) = if ltb b 256 then some (b, bs) else none

read_bool : Bytes → Option (Bool × Bytes)
read_bool [] = none
read_bool (b ∷ bs) = if b == 0 then some (false, bs) else if b == 1 then some (true, bs) else none

abbrev is_ascii : Bytes → Bool
is_ascii = all (λ b. ltb b 128)

unfoldable pub sim_postcard : Postcard
unfolding below read_varint write_varint read_i8 read_u8 read_bool
sim_postcard = record {
  u8 = record { write = λ n. n ∷ []; read = read_u8 };
  u32 = varint 5 u32_mod;
  u64 = varint 10 (2 ^ 64);
  usize = varint 5 u32_mod;
  variant = varint 5 u32_mod;
  i8 = record { write = λ z. i8_byte z ∷ []; read = read_i8 };
  bool = record { write = λ b. (if b then 1 else 0) ∷ []; read = read_bool };
  is_utf8 = is_ascii;
}

i8_laws : FormatLaws sim_postcard.i8 IsI8 1
unfolding sim_postcard read_i8
i8_laws = record {
  read-write = λ z. elim z [ pos n ↦ λ rest lt. ground arith | negsuc n ↦ λ rest lt. ground arith ];
  read-IsValue = λ bs z rest e. ground arith;
  read-le = λ bs z rest e. ground arith;
  length-write = λ z h. omega arith;
}

u8_laws : FormatLaws sim_postcard.u8 IsU8 1
unfolding sim_postcard read_u8
u8_laws = record {
  read-write = λ n rest lt. ground arith;
  read-IsValue = λ bs z rest e. ground arith;
  read-le = λ bs z rest e. ground arith;
  length-write = λ z h. omega arith;
}

bool_laws : FormatLaws sim_postcard.bool IsAny 1
unfolding sim_postcard read_bool
bool_laws = record {
  read-write = λ z. elim z [ true ↦ λ rest h. ground arith | false ↦ λ rest h. ground arith ];
  read-IsValue = λ bs z rest e. tt;
  read-le = λ bs z rest e. ground arith;
  length-write = λ z h. omega arith;
}

pub sim_postcard_laws : PostcardLaws sim_postcard
unfolding sim_postcard write_varint
sim_postcard_laws = record {
  u8_laws = u8_laws;
  u32_laws = varint-FormatLaws 4 u32_mod (omega arith);
  u64_laws = varint-FormatLaws 9 (2 ^ 64) (omega arith);
  usize_laws = varint-FormatLaws 4 u32_mod (omega arith);
  variant_laws = varint-FormatLaws 4 u32_mod (omega arith);
  i8_laws = i8_laws;
  bool_laws = bool_laws;
  length-variant = λ n lt. ground arith;
  length-usize = λ n lt. ground arith;
  is_utf8-ascii = λ bs h. h;
}
