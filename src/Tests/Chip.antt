-- ===== src/Tests/Chip.antt =====
-- A flash, registers, cryptography and a codec that can be computed with. They have the behaviour
-- that the laws ask of the real ones.
use prime_ble_firmware.Base.{
  ℕ, zero, suc, ◌+◌, ◌-◌, ◌/◌, ◌%◌, ◌^◌, ◌<◌, ◌≡◌, refl, Bool, true, false, ◌&&◌, [], ◌∷◌, ◌++◌,
  Option, none, some, arith, ltb, leb, ◌==◌, if◌then◌else◌, length, get_or, take, replicate,
}
use prime_ble_firmware.Base.Bits.{and_word}
use prime_ble_firmware.Consts.{u32_mod}
use prime_ble_firmware.Protocol.{Bytes, Bootloader, HostProtocolMessage, TrustLevel}
use prime_ble_firmware.Platform.{
  NorFlash, NorFlashRange, NorFlashLaws, Uicr, UicrLaws, MicroEcc, VerificationResult, Parsed,
  Cosign, Digests, Codec, CodecLaws,
}
use prime_ble_firmware.Boot.Session.{Board}
use prime_ble_firmware.Boot.Session.Reach.{DecodeLaws, Fits}

abbrev pub Bank : Type 0
Bank = ℕ → ℕ

abbrev bytes_at : Bank → ℕ → ℕ → Bytes
bytes_at m a zero = []
bytes_at m a (suc n) = m a ∷ bytes_at m (a + 1) n

abbrev erased_range : Bank → ℕ → ℕ → Bank
erased_range m from to a = if leb from a && ltb a to then 255 else m a

-- An erased byte takes what is written, any other loses bits.
abbrev stored : Bank → ℕ → Bytes → Bank
stored m o bs a =
    if leb o a && ltb a (o + length bs)
    then (if m a == 255 then get_or bs (a - o) 0 else and_word 8 (m a) (get_or bs (a - o) 0))
    else m a

-- The Booleans say whether reads, erases and writes succeed.
abbrev pub sim_flash : Bool → Bool → Bool → NorFlash
sim_flash reads erases writes = record {
  Mem = Bank;
  byte = λ m a. m a;
  read = λ m a n. if reads then some (bytes_at m a n) else none;
  erase = λ m from to. if erases then (erased_range m from to, true) else (m, false);
  write = λ m o bs. if writes then (stored m o bs, true) else (m, false);
}

length-bytes_at : (m : Bank) (a n : ℕ) → length (bytes_at m a n) ≡ n
length-bytes_at m a zero = refl
length-bytes_at m a (suc n) = ground (arith, length-bytes_at m (a + 1) n)

get_or-bytes_at : (m : Bank) (a n i : ℕ) → i < n → get_or (bytes_at m a n) i 0 ≡ m (a + i)
get_or-bytes_at m a zero i lt = absurd (omega arith)
get_or-bytes_at m a (suc n) zero lt = ground arith
get_or-bytes_at m a (suc n) (suc i) lt = ground (arith, get_or-bytes_at m (a + 1) n i)

pub sim_flash_range : (reads erases writes : Bool) → NorFlashRange (sim_flash reads erases writes)
sim_flash_range reads erases writes = record {
  length-read = λ m a n bs e. ground (arith, length-bytes_at m a n);
  read-byte = λ m a n bs i e lt. ground (arith, get_or-bytes_at m a n i);
  erase_below = λ m from to a lt. ground arith;
  erase_above = λ m from to a le. ground arith;
  write_below = λ m o bs a lt. ground arith;
  write_above = λ m o bs a le. ground arith;
}

pub sim_flash_laws : (reads erases writes : Bool) → NorFlashLaws (sim_flash reads erases writes)
sim_flash_laws reads erases writes = record {
  range = sim_flash_range reads erases writes;
  erase_inside = λ m from to a e lo hi. ground arith;
  erase_refused = λ m from to e. ground arith;
  write_inside = λ m o bs i e lt erased. ground arith;
  write_refused = λ m o bs e. ground arith;
}

pub record Cells : Type 0 where
  pub cell : ℕ → ℕ
  pub writable : Bool

abbrev cleared : Cells → ℕ → ℕ → Cells
cleared r i v =
    if r.writable
    then record r { cell = λ j. if j == i then and_word 32 (r.cell j) v else r.cell j }
    else r

-- The words of the secret as bytes, low byte first.
abbrev raw_byte : Cells → ℕ → ℕ
raw_byte r a = r.cell ((a - 0x10001080) / 4) / 256 ^ (a % 4) % 256

abbrev pub sim_uicr : Uicr
sim_uicr = record {
  Regs = Cells;
  customer = λ r i. r.cell i;
  write_customer = cleared;
  config_wen = λ r. record r { writable = true };
  config_reset = λ r. record r { writable = false };
  wait_ready = λ r. r;
  wen = λ r. r.writable;
  raw = λ r a n. bytes_at (raw_byte r) a n;
}

pub sim_uicr_laws : UicrLaws sim_uicr
sim_uicr_laws = record {
  customer-config_wen = λ r i. refl;
  customer-config_reset = λ r i. refl;
  customer-wait_ready = λ r i. refl;
  wen-config_wen = λ r. refl;
  wen-wait_ready = λ r. refl;
  wen-write_customer = λ r i v. ground arith;
  customer-write_self = λ r i v e. ground arith;
  customer-write_ne = λ r i j v ne. ground arith;
}

-- A key is valid as it is, and signs with its own first byte.
abbrev pub sim_ecc : MicroEcc
sim_ecc = record {
  decompress = λ pk. pk;
  valid_public_key = λ pk. if ltb 0 (length pk) then 1 else 0;
  verify = λ pk msg n signature. if get_or pk 0 0 == get_or signature 0 1 then 1 else 0;
}

-- The first byte of an image is its trust (two: full, one: developer), the second its signature by
-- the first known signer, and the third its version.
abbrev sim_header : Bytes → Parsed (ℕ × Bytes)
sim_header img =
    if get_or img 0 0 == 2
    then Parsed.ok (some (2, take 3 img))
    else if get_or img 0 0 == 1
    then Parsed.ok (some (1, take 3 img))
    else Parsed.ok none

abbrev sim_signed : VerificationResult → Bytes → Parsed (ℕ × Bytes)
sim_signed VerificationResult.valid img = sim_header img
sim_signed VerificationResult.invalid img = Parsed.err

abbrev pub sim_cosign : Cosign
sim_cosign = record {
  Header = ℕ × Bytes;
  parse = λ img signers hash verify size.
      sim_signed (verify (hash (take 3 img)) (get_or img 1 0 ∷ []) (get_or signers 0 [])) img;
  parse_unverified = λ img size check. sim_header img;
  is_fully_trusted = λ header. header.0 == 2;
  binary_hash = λ header. header.1;
  version = λ header. get_or header.1 2 0 ∷ [];
  date = λ header. [];
}

abbrev pub sim_digests : Digests
sim_digests = record {
  sha256 = λ bs. bs;
  hmac_sha256 = λ key msg. some (take 1 key ++ msg);
  crc32_iscsi = λ bs. length bs % u32_mod;
  string_from_str = λ n bs. if leb (length bs) n then some bs else none;
}

-- One byte of code, then the contents; a secret is the same word eight times.
abbrev sim_decode : Bytes → Option HostProtocolMessage
sim_decode [] = none
sim_decode (code ∷ rest) =
    if code == 0
    then some (HostProtocolMessage.bootloader Bootloader.erase_firmware)
    else if code == 1
    then some (HostProtocolMessage.bootloader (Bootloader.write_firmware_block 0 rest))
    else if code == 2
    then some
        (HostProtocolMessage.bootloader (Bootloader.challenge_set (replicate 8 (get_or rest 0 0))))
    else if code == 3
    then some (HostProtocolMessage.bootloader (Bootloader.boot_firmware TrustLevel.developer))
    else none

abbrev pub sim_codec : Codec
sim_codec = record {
  from_bytes = sim_decode;
  to_slice = λ m n. if leb 2 n then some (7 ∷ 9 ∷ []) else none;
}

pub sim_codec_laws : CodecLaws sim_codec
sim_codec_laws = record { length-to_slice = λ m n bs e. ground arith }

pub sim-DecodeLaws : DecodeLaws sim_codec
sim-DecodeLaws = record { from_bytes-Fits = λ bs m e. sim_fits bs m e }
  where
    sim_fits : (bs : Bytes) (m : HostProtocolMessage) → sim_decode bs ≡ some m → Fits (length bs) m
    sim_fits [] m e = absurd (cc)
    sim_fits (code ∷ rest) m e = ground arith

abbrev pub sim_board : Board
sim_board = record {
  flash = sim_flash true true true;
  uicr = sim_uicr;
  ecc = sim_ecc;
  cosign = sim_cosign;
  digests = sim_digests;
  codec = sim_codec;
}
