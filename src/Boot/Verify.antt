-- ===== src/Boot/Verify.antt =====
-- bootloader/src/verify.rs: the check of an image's signatures. Of the delays against glitching,
-- which change no value, only the length is modelled.
pub mod Trust
pub mod Glitch
use prime_ble_firmware.Base.{
  ℕ, ◌+◌, ◌-◌, ◌%◌, Bool, true, false, not, ◌&&◌, ◌||◌, List, [], ◌∷◌, Option, none, some, ◌==◌,
  if◌then◌else◌, length, replicate,
}
use prime_ble_firmware.Consts.{base_app_addr, app_size, signature_header_size, u32_mod}
use prime_ble_firmware.Protocol.{Bytes, TrustLevel}
use prime_ble_firmware.Platform.{NorFlash, MicroEcc, Cosign, Digests, VerificationResult, Parsed}
use prime_ble_firmware.Boot.Memory.{get_fw_image_slice}

abbrev signer_1 : Bytes
signer_1 =
    0x03 ∷ 0xbf ∷ 0x01 ∷ 0x4e ∷ 0x1a ∷ 0x37 ∷ 0xa1 ∷ 0x13 ∷ 0x08 ∷ 0x9b ∷ 0xea ∷ 0x7b ∷ 0x50 ∷ 0xee
    ∷ 0x9b ∷ 0xd7 ∷ 0x73 ∷ 0x31 ∷ 0x89 ∷ 0xec ∷ 0xd6 ∷ 0xaf ∷ 0xb7 ∷ 0xe0 ∷ 0x51 ∷ 0xa6 ∷ 0xe9
    ∷ 0x5f ∷ 0x99 ∷ 0xb9 ∷ 0x7d ∷ 0xa5 ∷ 0xe9 ∷ []

abbrev signer_2 : Bytes
signer_2 =
    0x03 ∷ 0x04 ∷ 0x0e ∷ 0x47 ∷ 0xc1 ∷ 0xcd ∷ 0xe8 ∷ 0x97 ∷ 0x80 ∷ 0x85 ∷ 0xbd ∷ 0xc8 ∷ 0xb4 ∷ 0x4d
    ∷ 0xf8 ∷ 0x5e ∷ 0x7c ∷ 0x0b ∷ 0x2e ∷ 0x1e ∷ 0xa5 ∷ 0x86 ∷ 0x69 ∷ 0x7b ∷ 0x5d ∷ 0x38 ∷ 0x5e
    ∷ 0x52 ∷ 0x3d ∷ 0x3f ∷ 0x90 ∷ 0x8b ∷ 0xc3 ∷ []

abbrev signer_3 : Bytes
signer_3 =
    0x03 ∷ 0x8d ∷ 0xe8 ∷ 0xdd ∷ 0x1c ∷ 0xba ∷ 0xd8 ∷ 0xbf ∷ 0x1d ∷ 0xa7 ∷ 0xff ∷ 0x64 ∷ 0xb8 ∷ 0xa9
    ∷ 0xb4 ∷ 0xa3 ∷ 0x75 ∷ 0xf0 ∷ 0x20 ∷ 0x5e ∷ 0xff ∷ 0x41 ∷ 0xf7 ∷ 0xf9 ∷ 0xdc ∷ 0xa8 ∷ 0xe9
    ∷ 0x1c ∷ 0x4c ∷ 0xf0 ∷ 0x95 ∷ 0x1d ∷ 0xaa ∷ []

abbrev signer_4 : Bytes
signer_4 =
    0x03 ∷ 0xcb ∷ 0x8e ∷ 0x42 ∷ 0x19 ∷ 0xd3 ∷ 0xc8 ∷ 0xf2 ∷ 0x69 ∷ 0xab ∷ 0x2e ∷ 0xd3 ∷ 0xac ∷ 0xb7
    ∷ 0x1a ∷ 0x4b ∷ 0x17 ∷ 0x22 ∷ 0xc7 ∷ 0x6a ∷ 0x0c ∷ 0x34 ∷ 0x8e ∷ 0xa1 ∷ 0x1f ∷ 0xa7 ∷ 0x9b
    ∷ 0x46 ∷ 0x39 ∷ 0xbe ∷ 0xf4 ∷ 0x50 ∷ 0x94 ∷ []

abbrev pub known_signers : List Bytes
known_signers = signer_1 ∷ signer_2 ∷ signer_3 ∷ signer_4 ∷ []

-- `!x` on 32 bits.
abbrev pub not32 : ℕ → ℕ
not32 x = u32_mod - 1 - x

-- The counter of `verify_ecdsa` runs through the two stages and is compared at the end.
abbrev pub cf1 : ℕ
cf1 = 13

abbrev pub cf2 : ℕ
cf2 = 7

abbrev pub uecc_success : ℕ
uecc_success = 1

-- The last stage: the result and the counter are compared once more.
unfoldable pub verify_result : ℕ → ℕ → VerificationResult
verify_result res counter =
    if res == uecc_success
    then (let counter' : ℕ = counter + cf2 in
        if not32 res == not32 uecc_success && counter' == (cf1 + cf2)
        then VerificationResult.valid
        else VerificationResult.invalid)
    else VerificationResult.invalid

unfoldable pub verify_ecdsa : MicroEcc → Bytes → Bytes → Bytes → VerificationResult
unfolding verify_result
verify_ecdsa e msg signature pubkey =
    let uncompressed_pk = e.decompress pubkey in
    let counter : ℕ = 0 in
    if e.valid_public_key uncompressed_pk == uecc_success
    then verify_result (e.verify uncompressed_pk msg (length msg) signature) (counter + cf1)
    else VerificationResult.invalid

-- How long `random_delay` waits for a random byte, in ms.
abbrev pub random_delay_ms : ℕ → ℕ
random_delay_ms byte = byte % 20

-- `trust == TrustLevel::Developer`.
abbrev pub is_developer : TrustLevel → Bool
is_developer TrustLevel.developer = true
is_developer TrustLevel.full = false

-- What becomes of the two checks; the hash is that of the first.
abbrev pub both_checks :
    VerificationResult × Bytes
    → VerificationResult × Bytes
    → VerificationResult × VerificationResult × Bytes
both_checks r1 r2 = (r1.0, r2.0, r1.1)

module _ (e : MicroEcc) (c : Cosign) (d : Digests) where
  unfoldable pub judge : TrustLevel → Parsed c.Header → VerificationResult × Bytes
  judge trust (Parsed.ok (some header)) =
      if c.is_fully_trusted header || is_developer trust
      then (VerificationResult.valid, c.binary_hash header)
      else (VerificationResult.invalid, c.binary_hash header)
  judge trust (Parsed.ok none) = (VerificationResult.invalid, replicate 32 0)
  judge trust Parsed.err = (VerificationResult.invalid, replicate 32 0)

  unfoldable pub verify_image : Bytes → TrustLevel → VerificationResult × Bytes
  unfolding judge
  verify_image img trust =
      judge trust (c.parse img known_signers d.sha256 (verify_ecdsa e) signature_header_size)

  -- The version and the date must fit strings of 20 and of 14 bytes.
  fitting : Option Bytes → Option Bytes → Option (Bytes × Bytes)
  fitting (some version) (some build_date) = some (version, build_date)
  fitting none _ = none
  fitting (some version) none = none

  unfoldable pub version_and_date : Parsed c.Header → Option (Bytes × Bytes)
  unfolding fitting
  version_and_date (Parsed.ok (some header)) =
      fitting (d.string_from_str 20 (c.version header)) (d.string_from_str 14 (c.date header))
  version_and_date (Parsed.ok none) = none
  version_and_date Parsed.err = none

  unfoldable pub read_version_and_build_date : Bytes → Bool → Option (Bytes × Bytes)
  unfolding version_and_date
  read_version_and_build_date img check_fw_size =
      version_and_date (c.parse_unverified img signature_header_size check_fw_size)

  -- The image is checked twice.
  verify_twice :
      Bytes
      → TrustLevel
      → Option (Bytes × Bytes)
      → Option (VerificationResult × VerificationResult × Bytes)
  verify_twice img trust none = none
  verify_twice img trust (some version) =
      let r1 = verify_image img trust in let r2 = verify_image img trust in some (both_checks r1 r2)

  unfoldable pub verify_fw_image :
      (f : NorFlash) → f.Mem → TrustLevel → Option (VerificationResult × VerificationResult × Bytes)
  unfolding verify_twice
  verify_fw_image f m trust =
      let img = get_fw_image_slice f m base_app_addr app_size in
      verify_twice img trust (read_version_and_build_date img true)
