-- ===== src/Boot/Session/Wired.antt =====
-- The main loop of bootloader/src/main.rs on postcard's bytes: its requests, its answers, and that
-- no answer is dropped.
pub mod Answered
pub mod Handled
use prime_ble_firmware.Base.{
  ℕ, ◌≤◌, ◌≡◌, refl, sym, subst, ap, Bool, true, false, [], ◌∷◌, Option, none, some, inl, inr,
  arith, length, all, ltb, Option-cases, replicate,
}
use prime_ble_firmware.Consts.{
  uicr_secret_start, uicr_secret_size, max_msg_size, base_app_addr, app_size, signature_header_size,
}
use prime_ble_firmware.Protocol.{Bytes, Bootloader, HostProtocolMessage, TrustLevel, is_request}
use prime_ble_firmware.Protocol.Frame.{ack_msg_send}
use prime_ble_firmware.Platform.{Codec, Cosign, Digests, VerificationResult, Parsed}
use prime_ble_firmware.Protocol.Wire.{Postcard, PostcardLaws, IsU8, IsU32}
use prime_ble_firmware.Protocol.Wire.Parts.{IsArray}
use prime_ble_firmware.Protocol.Wire.Messages.{wire_codec}
use prime_ble_firmware.Protocol.Wire.Validity.{IsStr, IsMessage}
use prime_ble_firmware.Protocol.Wire.Sizes.{IsBrief}
use prime_ble_firmware.Protocol.Wire.Delivery.{Delivers, Answers, ack_msg_send-Delivers}
use prime_ble_firmware.Protocol.Wire.Decoded.Messages.{IsMessageIn, from_bytes-IsMessage}
use prime_ble_firmware.Boot.Memory.{get_fw_image_slice, erase_firmware, write_firmware_block}
use prime_ble_firmware.Boot.Secret.{Vault, be_bytes, challenge_request, no_answer}
use prime_ble_firmware.Boot.Verify.{
  known_signers, verify_ecdsa, version_and_date, judge, read_version_and_build_date,
  verify_fw_image, verify_image,
}
use prime_ble_firmware.Boot.Protect.{Entry}
use prime_ble_firmware.Boot.Session.{
  Board, Loader, Outcome, SpiRead, Turn, cargo_pkg_version, firmware_version, boot_firmware,
  handle_bootloader, handle, round,
}
use prime_ble_firmware.Boot.Session.Replies.{handle_response}
use prime_ble_firmware.Boot.Session.Reach.{Fits, DecodeLaws}

-- The result types of cosign2, sha2, hmac, crc and heapless.
pub record ResultLaws (p : Postcard) (c : Cosign) (d : Digests) : Type 0 where
  pub binary_hash-IsArray : (h : c.Header) → IsArray IsU8 32 (c.binary_hash h)
  pub hmac_sha256-IsArray :
      (key message mac : Bytes) → d.hmac_sha256 key message ≡ some mac → IsArray IsU8 32 mac
  pub crc32_iscsi-IsU32 : (bs : Bytes) → IsU32 (d.crc32_iscsi bs)
  pub string_from_str-IsStr :
      (cap : ℕ) (bs s : Bytes)
      → d.string_from_str cap bs ≡ some s
      → (length s ≤ cap) × (p.is_utf8 s ≡ true)

IsMessage-Fits :
    (p : Postcard) (n : ℕ) (m : HostProtocolMessage) → IsMessage p m → IsMessageIn n m → Fits n m
IsMessage-Fits p n (HostProtocolMessage.bootloader (Bootloader.write_firmware_block idx block)) h
      le =
    le
IsMessage-Fits p n (HostProtocolMessage.bootloader (Bootloader.challenge_set secret)) h le = h.0
IsMessage-Fits p n _ h le = tt

-- What a message of the wire is, the bootloader's loop may rely on.
pub wire_codec-DecodeLaws : (p : Postcard) → PostcardLaws p → DecodeLaws (wire_codec p)
wire_codec-DecodeLaws p laws = record {
  from_bytes-Fits = λ bs m e.
      let r = from_bytes-IsMessage p laws bs m e in IsMessage-Fits p (length bs) m r.0 r.1;
}

module _ (p : Postcard) (laws : PostcardLaws p) (b : Board)
    (results : ResultLaws p b.cosign b.digests) where
  -- A message that can be sent in a frame.
  abbrev pub IsReply : HostProtocolMessage → Type 0
  IsReply r = IsMessage p r × IsBrief r

  version_and_date-IsStr :
      (parsed : Parsed b.cosign.Header) (version date : Bytes)
      → version_and_date b.ecc b.cosign b.digests parsed ≡ some (version, date)
      → (length version ≤ 20) × (p.is_utf8 version ≡ true)
  unfolding version_and_date
  version_and_date-IsStr (Parsed.ok none) version date e = absurd (ground arith)
  version_and_date-IsStr Parsed.err version date e = absurd (ground arith)
  version_and_date-IsStr (Parsed.ok (some header)) version date e =
      elim (Option-cases (b.digests.string_from_str 20 (b.cosign.version header))) [
        | inl e1 ↦ absurd (ground arith)
        | inr (v, e1) ↦ elim (Option-cases (b.digests.string_from_str 14 (b.cosign.date header))) [
          | inl e2 ↦ absurd (ground arith)
          | inr (d, e2) ↦
              ground (arith, results.string_from_str-IsStr 20 (b.cosign.version header) v e1)
        ]
      ]

  firmware_version-IsReply :
      (s : Loader b) → IsReply (HostProtocolMessage.bootloader (firmware_version b s))
  unfolding firmware_version read_version_and_build_date
  firmware_version-IsReply s =
      let read : Option (Bytes × Bytes) =
        read_version_and_build_date b.ecc b.cosign b.digests
          (get_fw_image_slice b.flash s.store.mem base_app_addr signature_header_size) false in
      elim (Option-cases read) [
        | inl e ↦ ground arith
        | inr ((version, date), e) ↦ ground (
          arith,
          version_and_date-IsStr
              (b.cosign.parse_unverified
                (get_fw_image_slice b.flash s.store.mem base_app_addr signature_header_size)
                signature_header_size false)
              version date e,
        )
      ]

  judge-IsArray :
      (trust : TrustLevel) (parsed : Parsed b.cosign.Header)
      → IsArray IsU8 32 (judge b.ecc b.cosign b.digests trust parsed).1
  unfolding judge
  judge-IsArray trust (Parsed.ok (some header)) = ground (arith, results.binary_hash-IsArray header)
  judge-IsArray trust (Parsed.ok none) = ground arith
  judge-IsArray trust Parsed.err = ground arith

  verify_fw_image-IsArray :
      (s : Loader b) (trust : TrustLevel) (r1 r2 : VerificationResult) (hash : Bytes)
      → verify_fw_image b.ecc b.cosign b.digests b.flash s.store.mem trust ≡ some (r1, r2, hash)
      → IsArray IsU8 32 hash
  unfolding verify_fw_image verify_image
  verify_fw_image-IsArray s trust r1 r2 hash e =
      let img : Bytes = get_fw_image_slice b.flash s.store.mem base_app_addr app_size in
      elim (Option-cases (read_version_and_build_date b.ecc b.cosign b.digests img true)) [
        | inl e1 ↦ absurd (ground arith)
        | inr (version, e1) ↦ ground (
          arith,
          judge-IsArray trust (
              b.cosign.parse img known_signers b.digests.sha256 (verify_ecdsa b.ecc)
                signature_header_size),
        )
      ]

  -- An answer of the bootloader to a message of the wire can be sent in a frame.
  abbrev pub IsReplyOutcome : Outcome b → Type 0
  IsReplyOutcome (Outcome.responds none) = Unit {0}
  IsReplyOutcome (Outcome.responds (some r)) = IsReply r
  IsReplyOutcome (Outcome.boots r entry) = IsReply r
  IsReplyOutcome Outcome.resets = Unit {0}

  boot_firmware-IsReply :
      (trust : TrustLevel) (s : Loader b) → IsReplyOutcome (boot_firmware b trust s).1
  unfolding boot_firmware
  boot_firmware-IsReply trust s =
      elim (Option-cases (verify_fw_image b.ecc b.cosign b.digests b.flash s.store.mem trust)) [
        | inl e ↦ ground arith
        | inr ((VerificationResult.valid, VerificationResult.valid, hash), e) ↦ ground (
          arith,
          verify_fw_image-IsArray s trust VerificationResult.valid VerificationResult.valid hash e,
        )
        | inr ((VerificationResult.valid, VerificationResult.invalid, hash), e) ↦ ground (
          arith,
          verify_fw_image-IsArray s trust VerificationResult.valid VerificationResult.invalid hash
              e,
        )
        | inr ((VerificationResult.invalid, r2, hash), e) ↦
            ground (arith, verify_fw_image-IsArray s trust VerificationResult.invalid r2 hash e)
      ]

  handle_bootloader-IsReply :
      (m : Bootloader) (s : Loader b)
      → IsMessage p (HostProtocolMessage.bootloader m)
      → IsReplyOutcome (handle_bootloader b m s).1
  unfolding handle_bootloader erase_firmware write_firmware_block
  handle_bootloader-IsReply Bootloader.erase_firmware s h = ground arith
  handle_bootloader-IsReply (Bootloader.write_firmware_block idx block) s h =
      ground (arith, results.crc32_iscsi-IsU32 block)
  handle_bootloader-IsReply Bootloader.firmware_version s h = firmware_version-IsReply s
  handle_bootloader-IsReply Bootloader.bootloader_version s h =
      ground (arith, laws.is_utf8-ascii cargo_pkg_version refl)
  handle_bootloader-IsReply (Bootloader.challenge_set secret) s h = (tt, tt)
  handle_bootloader-IsReply (Bootloader.boot_firmware trust) s h = boot_firmware-IsReply trust s
  handle_bootloader-IsReply _ s h = tt

  challenge_request-IsReply :
      (v : Vault b.uicr) (nonce : ℕ) → IsReply (challenge_request b.uicr b.digests v nonce)
  unfolding challenge_request
  challenge_request-IsReply v nonce =
      let key : Bytes = b.uicr.raw v.regs uicr_secret_start uicr_secret_size in
      elim (Option-cases (b.digests.hmac_sha256 key (be_bytes 8 nonce))) [
        | inl e ↦ ground arith
        | inr (mac, e) ↦ ground (arith, results.hmac_sha256-IsArray key (be_bytes 8 nonce) mac e)
      ]

  pub handle-IsReply :
      (m : HostProtocolMessage) (s : Loader b) → IsMessage p m → IsReplyOutcome (handle b m s).1
  unfolding handle
  handle-IsReply (HostProtocolMessage.bootloader sub) s h = handle_bootloader-IsReply sub s h
  handle-IsReply (HostProtocolMessage.challenge_request nonce) s h =
      challenge_request-IsReply s.vault nonce
  handle-IsReply HostProtocolMessage.reset s h = tt
  handle-IsReply _ s h = (tt, tt)
