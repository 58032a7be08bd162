-- ===== src/Platform.antt =====
-- What the firmware and the bootloader take from other crates and from the chip, as parameters:
-- the operations that the source calls. The behaviour that a theorem relies on is a record of
-- laws beside each interface, which that theorem takes as a hypothesis.
use prime_ble_firmware.Base.{
  ℕ, ◌+◌, ◌≤◌, ◌<◌, ◌≡◌, ◌≢◌, Bool, true, false, List, Option, some, length, get_or,
}
use prime_ble_firmware.Base.Bits.{and_word}
use prime_ble_firmware.Protocol.{Bytes, HostProtocolMessage}

-- embassy_nrf's `Nvmc` as an embedded_storage `NorFlash`; `byte` is what a raw pointer reads. The
-- Boolean says whether the call returned `Ok`.
pub record NorFlash : Type 1 where
  pub Mem : Type 0
  pub byte : Mem → ℕ → ℕ
  -- offset, number of bytes
  pub read : Mem → ℕ → ℕ → Option Bytes
  -- from, to
  pub erase : Mem → ℕ → ℕ → Mem × Bool
  -- offset, bytes
  pub write : Mem → ℕ → Bytes → Mem × Bool

-- The documented behaviour of a flash outside of the range of a call: a read returns what is stored,
-- and an erase or a write changes nothing but its range. Write protection does not change this.
pub record NorFlashRange (f : NorFlash) : Type 0 where
  pub length-read : (m : f.Mem) (a n : ℕ) (bs : Bytes) → f.read m a n ≡ some bs → length bs ≡ n
  pub read-byte :
      (m : f.Mem) (a n : ℕ) (bs : Bytes) (i : ℕ)
      → f.read m a n ≡ some bs
      → i < n
      → get_or bs i 0 ≡ f.byte m (a + i)
  pub erase_below :
      (m : f.Mem) (from to a : ℕ) → a < from → f.byte (f.erase m from to).0 a ≡ f.byte m a
  pub erase_above :
      (m : f.Mem) (from to a : ℕ) → to ≤ a → f.byte (f.erase m from to).0 a ≡ f.byte m a
  pub write_below :
      (m : f.Mem) (o : ℕ) (bs : Bytes) (a : ℕ) → a < o → f.byte (f.write m o bs).0 a ≡ f.byte m a
  pub write_above :
      (m : f.Mem) (o : ℕ) (bs : Bytes) (a : ℕ)
      → o + length bs ≤ a
      → f.byte (f.write m o bs).0 a ≡ f.byte m a

-- That of a NOR flash without write protection: an erase sets its range to ones, a write onto erased
-- bytes stores them, and a call that is refused changes nothing.
pub record NorFlashLaws (f : NorFlash) : Type 0 where
  pub range : NorFlashRange f
  pub erase_inside :
      (m : f.Mem) (from to a : ℕ)
      → (f.erase m from to).1 ≡ true
      → from ≤ a
      → a < to
      → f.byte (f.erase m from to).0 a ≡ 255
  pub erase_refused :
      (m : f.Mem) (from to : ℕ) → (f.erase m from to).1 ≡ false → (f.erase m from to).0 ≡ m
  pub write_inside :
      (m : f.Mem) (o : ℕ) (bs : Bytes) (i : ℕ)
      → (f.write m o bs).1 ≡ true
      → i < length bs
      → f.byte m (o + i) ≡ 255
      → f.byte (f.write m o bs).0 (o + i) ≡ get_or bs i 0
  pub write_refused :
      (m : f.Mem) (o : ℕ) (bs : Bytes) → (f.write m o bs).1 ≡ false → (f.write m o bs).0 ≡ m

-- The registers of nrf52805_pac's NVMC and UICR that the secret goes through.
pub record Uicr : Type 1 where
  pub Regs : Type 0
  -- `customer[i].read().bits()`
  pub customer : Regs → ℕ → ℕ
  -- `customer[i].write(bits)`
  pub write_customer : Regs → ℕ → ℕ → Regs
  -- `config.write(wen)`, `config.reset()`, and the wait until the controller is not busy
  pub config_wen : Regs → Regs
  pub config_reset : Regs → Regs
  pub wait_ready : Regs → Regs
  -- whether writes are enabled
  pub wen : Regs → Bool
  -- raw bytes at an address
  pub raw : Regs → ℕ → ℕ → Bytes

-- The product specification: with writes enabled a write can only clear bits of its register.
pub record UicrLaws (u : Uicr) : Type 0 where
  pub customer-config_wen : (r : u.Regs) (i : ℕ) → u.customer (u.config_wen r) i ≡ u.customer r i
  pub customer-config_reset :
      (r : u.Regs) (i : ℕ) → u.customer (u.config_reset r) i ≡ u.customer r i
  pub customer-wait_ready : (r : u.Regs) (i : ℕ) → u.customer (u.wait_ready r) i ≡ u.customer r i
  pub wen-config_wen : (r : u.Regs) → u.wen (u.config_wen r) ≡ true
  pub wen-wait_ready : (r : u.Regs) → u.wen (u.wait_ready r) ≡ u.wen r
  pub wen-write_customer : (r : u.Regs) (i v : ℕ) → u.wen (u.write_customer r i v) ≡ u.wen r
  pub customer-write_self :
      (r : u.Regs) (i v : ℕ)
      → u.wen r ≡ true
      → u.customer (u.write_customer r i v) i ≡ and_word 32 (u.customer r i) v
  pub customer-write_ne :
      (r : u.Regs) (i j v : ℕ) → i ≢ j → u.customer (u.write_customer r i v) j ≡ u.customer r j

-- micro_ecc_sys: keys and signatures are byte arrays, results `i32` bit patterns.
pub record MicroEcc : Type 0 where
  pub decompress : Bytes → Bytes
  pub valid_public_key : Bytes → ℕ
  -- public key, message, its length, signature
  pub verify : Bytes → Bytes → ℕ → Bytes → ℕ

-- `cosign2::VerificationResult`.
pub data VerificationResult : Type 0 where
  valid invalid : VerificationResult

-- `Result<Option<Header>, _>`.
pub data Parsed (A : Type 0) : Type 0 where
  ok : Option A → Parsed A
  err : Parsed A

-- cosign2, with the two traits that the bootloader implements as arguments of `parse`.
pub record Cosign : Type 1 where
  pub Header : Type 0
  -- image, known signers, hash, verify_ecdsa (message, signature, key), header size
  pub parse :
      Bytes
      → List Bytes
      → (Bytes → Bytes)
      → (Bytes → Bytes → Bytes → VerificationResult)
      → ℕ
      → Parsed Header
  -- image, header size, whether to check the size
  pub parse_unverified : Bytes → ℕ → Bool → Parsed Header
  -- `trust() == Trust::FullyTrusted`
  pub is_fully_trusted : Header → Bool
  pub binary_hash : Header → Bytes
  pub version : Header → Bytes
  pub date : Header → Bytes

-- sha2, hmac (`None`: the key has a length that is refused), crc's CRC_32_ISCSI, and heapless's
-- `String::<N>::from_str` (`None`: longer than N).
pub record Digests : Type 0 where
  pub sha256 : Bytes → Bytes
  -- key, message
  pub hmac_sha256 : Bytes → Bytes → Option Bytes
  pub crc32_iscsi : Bytes → ℕ
  pub string_from_str : ℕ → Bytes → Option Bytes

-- postcard: `to_slice` gets the size of its buffer, and `None` is an error.
pub record Codec : Type 0 where
  pub from_bytes : Bytes → Option HostProtocolMessage
  pub to_slice : HostProtocolMessage → ℕ → Option Bytes

-- What is serialized fits the buffer.
pub record CodecLaws (c : Codec) : Type 0 where
  pub length-to_slice :
      (m : HostProtocolMessage) (n : ℕ) (bs : Bytes) → c.to_slice m n ≡ some bs → length bs ≤ n
