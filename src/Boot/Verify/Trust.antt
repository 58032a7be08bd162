-- ===== src/Boot/Verify/Trust.antt =====
-- Which images bootloader/src/verify.rs accepts.
use prime_ble_firmware.Base.{◌≡◌, ◌↔◌, true, ◌||◌, some, arith, length}
use prime_ble_firmware.Consts.{base_app_addr, app_size, signature_header_size}
use prime_ble_firmware.Protocol.{Bytes, TrustLevel}
use prime_ble_firmware.Platform.{NorFlash, MicroEcc, Cosign, Digests, VerificationResult, Parsed}
use prime_ble_firmware.Boot.Memory.{get_fw_image_slice}
use prime_ble_firmware.Boot.Verify.{
  known_signers, verify_ecdsa, verify_image, is_developer, read_version_and_build_date,
  verify_fw_image,
}

-- A signature is valid exactly if both calls of micro-ecc report success: the counter and the
-- second comparison turn no valid signature down.
pub verify_ecdsa-valid :
    (e : MicroEcc) (msg signature pubkey : Bytes)
    → (verify_ecdsa e msg signature pubkey ≡ VerificationResult.valid) ↔ (
        (e.valid_public_key (e.decompress pubkey) ≡ 1)
        × (e.verify (e.decompress pubkey) msg (length msg) signature ≡ 1))
unfolding verify_ecdsa
verify_ecdsa-valid e msg signature pubkey = ground arith

module _ (e : MicroEcc) (c : Cosign) (d : Digests) (f : NorFlash) where
  -- The application's area, as the check reads it.
  abbrev pub app_image : f.Mem → Bytes
  app_image m = get_fw_image_slice f m base_app_addr app_size

  -- A header that cosign2 accepts for the image, under the known signers.
  abbrev pub IsHeader : f.Mem → c.Header → Type 0
  IsHeader m header =
      c.parse (app_image m) known_signers d.sha256 (verify_ecdsa e) signature_header_size
      ≡ Parsed.ok (some header)

  -- Both checks pass only for an image with a header that cosign2 accepts, and then the hash is
  -- that of its binary; the header is fully trusted unless developer images are allowed.
  pub verify_fw_image-valid :
      (m : f.Mem) (trust : TrustLevel) (hash : Bytes)
      → verify_fw_image e c d f m trust
        ≡ some (VerificationResult.valid, VerificationResult.valid, hash)
      → (header : c.Header) × IsHeader m header
        × (hash ≡ c.binary_hash header)
        × (c.is_fully_trusted header || is_developer trust ≡ true)
  unfolding verify_fw_image verify_image
  verify_fw_image-valid m trust hash h = ground arith

  -- Both checks pass for an image whose header cosign2 accepts and whose version and date can be
  -- read, if the header is fully trusted or developer images are allowed.
  pub verify_fw_image_accepts :
      (m : f.Mem) (trust : TrustLevel) (header : c.Header) (version : Bytes × Bytes)
      → IsHeader m header
      → read_version_and_build_date e c d (app_image m) true ≡ some version
      → c.is_fully_trusted header || is_developer trust ≡ true
      → verify_fw_image e c d f m trust
        ≡ some (VerificationResult.valid, VerificationResult.valid, c.binary_hash header)
  unfolding verify_fw_image verify_image
  verify_fw_image_accepts m trust header version parsed read trusted = ground arith
