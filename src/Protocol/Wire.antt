-- ===== src/Protocol/Wire.antt =====
-- How the messages of host-protocol/src/lib.rs go over the wire: what `derive(Serialize,
-- Deserialize)` makes of each type. A variant is its position in the enumeration, then its fields in
-- their order. The bytes of a number, of a variant's index and of a length are postcard's.
pub mod Parts
pub mod Enums
pub mod Bluetooth
pub mod Bootloader
pub mod Messages
pub mod Validity
pub mod RoundTrip
pub mod Decoded
pub mod Sizes
pub mod Delivery
use prime_ble_firmware.Base.{
  ℕ, ◌+◌, ◌^◌, ◌≤◌, ◌<◌, ◌≡◌, Bool, List, [], ◌∷◌, ◌++◌, Option, none, some, length, all, ltb, true,
}
use prime_ble_firmware.Base.Int.{ℤ, pos, negsuc}
use prime_ble_firmware.Consts.{u32_mod}
use prime_ble_firmware.Protocol.{Bytes}

-- A writer, and a reader that gives the value with the bytes that follow it.
pub record Format (A : Type 0) : Type 0 where
  pub write : A → Bytes
  pub read : Bytes → Option (A × Bytes)

-- What is written is read back and nothing more; what is read is a value; a value takes at most
-- `size` bytes.
pub record FormatLaws {A : Type 0} (f : Format A) (IsValue : A → Type 0) (size : ℕ) : Type 0 where
  pub read-write : (a : A) (rest : Bytes) → IsValue a → f.read (f.write a ++ rest) ≡ some (a, rest)
  pub read-IsValue : (bs : Bytes) (a : A) (rest : Bytes) → f.read bs ≡ some (a, rest) → IsValue a
  pub read-le :
      (bs : Bytes) (a : A) (rest : Bytes) → f.read bs ≡ some (a, rest) → length rest ≤ length bs
  pub length-write : (a : A) → IsValue a → length (f.write a) ≤ size

-- postcard, built for a machine whose `usize` has 32 bits; `variant` is the index of a variant, and
-- `is_utf8` is `core::str::from_utf8(_).is_ok()`.
pub record Postcard : Type 0 where
  pub u8 : Format ℕ
  pub u32 : Format ℕ
  pub u64 : Format ℕ
  pub usize : Format ℕ
  pub variant : Format ℕ
  pub i8 : Format ℤ
  pub bool : Format Bool
  pub is_utf8 : Bytes → Bool

abbrev pub IsU8 : ℕ → Type 0
IsU8 n = n < 256

abbrev pub IsU32 : ℕ → Type 0
IsU32 n = n < u32_mod

abbrev pub IsU64 : ℕ → Type 0
IsU64 n = n < 2 ^ 64

abbrev pub IsI8 : ℤ → Type 0
IsI8 (pos n) = n < 128
IsI8 (negsuc n) = n < 128

abbrev pub IsAny : {A : Type 0} → A → Type 0
IsAny _ = Unit {0}

-- postcard's wire format: a byte for `u8`, `i8` and `bool`, else seven bits a byte. ASCII is UTF-8.
pub record PostcardLaws (p : Postcard) : Type 0 where
  pub u8_laws : FormatLaws p.u8 IsU8 1
  pub u32_laws : FormatLaws p.u32 IsU32 5
  pub u64_laws : FormatLaws p.u64 IsU64 10
  pub usize_laws : FormatLaws p.usize IsU32 5
  pub variant_laws : FormatLaws p.variant IsU32 5
  pub i8_laws : FormatLaws p.i8 IsI8 1
  pub bool_laws : FormatLaws p.bool IsAny 1
  pub length-variant : (n : ℕ) → n < 128 → length (p.variant.write n) ≤ 1
  pub length-usize : (n : ℕ) → n < 16384 → length (p.usize.write n) ≤ 2
  pub is_utf8-ascii : (bs : Bytes) → all (λ b. ltb b 128) bs ≡ true → p.is_utf8 bs ≡ true
