-- ===== src/Xtask/Command/Signing.antt =====
-- The two signatures of a firmware: `SignFirmware` of xtask/src/main.rs, run by one signer after the
-- other.
use prime_ble_firmware.Base.{
  ◌≡◌, ap, ◌∙◌, Bool, true, false, ◌||◌, [], ◌∷◌, ◌++◌, Option, some, inl, inr, Option-cases, arith,
  if◌then◌else◌,
}
use Prim.Native.String.{String}
use prime_ble_firmware.Xtask.Task.{Cmd, Host, World, Ending, ◌>>=◌, status, judged, require}
use prime_ble_firmware.Xtask.Command.{
  application, application_signed, application_signed_once, cosign2_sign, cosign2_probe, unless,
  sign_bt_firmware,
}

-- What a signing needs of the machine: the file that cosign2 was told to write is there when it
-- succeeded, seen from the root of the project, where xtask is run; and the probe removes no file.
pub record SigningLaws (h : Host) : Type 0 where
  pub metadata-cosign2_sign :
      (config_path input version output : String) (developer : Bool) (s t : h.State)
      → h.status (cosign2_sign config_path input version developer output) s ≡ (t, some true)
      → h.metadata t output ≡ true
  pub metadata-spawn :
      (cmd : Cmd) (s : h.State) (path : String)
      → h.metadata (h.spawn cmd s).0 path ≡ h.metadata s path

module _ (h : Host) where
  -- The entry that a successful signing leaves in the log.
  abbrev pub signed : String → String → String → Bool → String → Cmd × Option Bool
  signed config_path input version developer output =
      (cosign2_sign config_path input version developer output, some true)

  abbrev signing_input : Bool → String
  signing_input signed_once = if signed_once then application_signed_once else application

  abbrev signing_output : Bool → Bool → String
  signing_output signed_once developer =
      if signed_once || developer then application_signed else application_signed_once

  sign_bt_firmware-returns :
      (config_path : String) (developer once : Bool) (w : World h)
      → (sign_bt_firmware h config_path developer w).1 ≡ Ending.returns tt
      → h.metadata (h.spawn cosign2_probe w.host).0 application_signed_once ≡ once
      → (version : String) × (t : h.State) × (h.status
            (cosign2_sign config_path
              (signing_input once)
              version
              developer
              (signing_output once developer))
            (h.spawn cosign2_probe w.host).0
          ≡ (t, some true))
        × ((sign_bt_firmware h config_path developer w).0 ≡ record {
          host = t;
          log =
              w.log
              ++ signed config_path
                  (signing_input once)
                  version
                  developer
                  (signing_output once developer)
                ∷ [];
        })
  unfolding sign_bt_firmware unless require status judged ◌>>=◌
  sign_bt_firmware-returns config_path developer once w e e1 =
      let s : h.State = (h.spawn cosign2_probe w.host).0 in
      elim (Option-cases (h.firmware_version s)) [
        | inl e2 ↦ absurd (ground arith)
        | inr (version, e2) ↦
            let r : h.State × Option Bool =
              h.status
                (cosign2_sign config_path (signing_input once) version developer
                  (signing_output once developer))
                s in
            elim (Option-cases r.1) [
              | inl e3 ↦ absurd (ground arith)
              | inr (false, e3) ↦ absurd (ground arith)
              | inr (true, e3) ↦ (version, r.0, ground arith, ground arith)
            ]
      ]

  -- If xtask runs in the root of the project, where cosign2 leaves what it signs, no image was
  -- signed once, and two signers run `SignFirmware` one after the other, each to its end, then the
  -- first signed the application, and the second signed what the first had signed and wrote the
  -- image that is packaged.
  pub sign_bt_firmware_twice :
      (laws : SigningLaws h) (first second : String) (w : World h)
      → let w1 : World h = (sign_bt_firmware h first false w).0 in
        h.metadata w.host application_signed_once ≡ false
        → (sign_bt_firmware h first false w).1 ≡ Ending.returns tt
        → (sign_bt_firmware h second false w1).1 ≡ Ending.returns tt
        → (v1 v2 : String) × ((sign_bt_firmware h second false w1).0.log
            ≡ (w.log ++ signed first application v1 false application_signed_once ∷ [])
              ++ signed second application_signed_once v2 false application_signed ∷ [])
  sign_bt_firmware_twice laws first second w e e1 e2 =
      let w1 : World h = (sign_bt_firmware h first false w).0 in
      let (v1, t1, s1, r1) =
        sign_bt_firmware-returns first false false w e1
          (laws.metadata-spawn cosign2_probe w.host application_signed_once ∙ e) in
      let there : h.metadata w1.host application_signed_once ≡ true =
        ap (λ (u : World h). h.metadata u.host application_signed_once) r1
        ∙ laws.metadata-cosign2_sign first application v1 application_signed_once false
            (h.spawn cosign2_probe w.host).0 t1 s1 in
      let (v2, t2, s2, r2) =
        sign_bt_firmware-returns second false true w1 e2
          (laws.metadata-spawn cosign2_probe w1.host application_signed_once ∙ there) in
      (
        v1,
        v2,
        ap (λ (u : World h). u.log) r2
            ∙ ap
                (λ (u : World h).
                  u.log ++ signed second application_signed_once v2 false application_signed ∷ [])
                r1,
      )
