-- ===== src/Boot/Verify/Glitch.antt =====
-- The defences of bootloader/src/verify.rs against a fault: the counter of `verify_ecdsa`, the two
-- calls of `verify_image`, and the match on both in bootloader/src/main.rs.
use prime_ble_firmware.Base.{ℕ, ◌<◌, ◌≡◌, ◌↔◌, ◌⊎◌, inl, inr, sym, ap, ◌∙◌, true, ◌||◌, arith}
use prime_ble_firmware.Consts.{u32_mod}
use prime_ble_firmware.Protocol.{Bytes, TrustLevel}
use prime_ble_firmware.Platform.{NorFlash, MicroEcc, Cosign, Digests, VerificationResult}
use prime_ble_firmware.Boot.Verify.{verify_result, verify_image, both_checks, is_developer}
use prime_ble_firmware.Boot.Verify.Trust.{IsHeader, app_image}

-- Whatever the result and the counter at the last stage are, as words: it says valid exactly if the
-- result is success and the counter has gone through the first stage once.
pub verify_result-valid :
    (res counter : ℕ)
    → res < u32_mod
    → (verify_result res counter ≡ VerificationResult.valid) ↔ ((res ≡ 1) × (counter ≡ 13))
unfolding verify_result
verify_result-valid res counter lt = ground arith

module _ (e : MicroEcc) (c : Cosign) (d : Digests) (f : NorFlash) where
  -- A check that says valid has found an accepted header, and a trusted one.
  verify_image-valid :
      (m : f.Mem) (trust : TrustLevel)
      → (verify_image e c d (app_image e c d f m) trust).0 ≡ VerificationResult.valid
      → (header : c.Header) × IsHeader e c d f m header
        × (c.is_fully_trusted header || is_developer trust ≡ true)
  unfolding verify_image
  verify_image-valid m trust h = ground arith

  -- If one of the two checks is carried out as written, then whatever the other gives, both say
  -- valid only for an image with an accepted and trusted header.
  pub both_checks-valid :
      (m : f.Mem) (trust : TrustLevel) (r1 r2 : VerificationResult × Bytes) (hash : Bytes)
      → (r1 ≡ verify_image e c d (app_image e c d f m) trust)
        ⊎ (r2 ≡ verify_image e c d (app_image e c d f m) trust)
      → both_checks r1 r2 ≡ (VerificationResult.valid, VerificationResult.valid, hash)
      → (header : c.Header) × IsHeader e c d f m header
        × (c.is_fully_trusted header || is_developer trust ≡ true)
  both_checks-valid m trust r1 r2 hash (inl same) both =
      verify_image-valid m trust (sym (ap (λ r. r.0) same) ∙ ap (λ v. v.0) both)
  both_checks-valid m trust r1 r2 hash (inr same) both =
      verify_image-valid m trust (sym (ap (λ r. r.0) same) ∙ ap (λ v. v.1) both)
