-- ===== src/Boot/Session.antt =====
-- The main loop of bootloader/src/main.rs (built without `debug`): the handling of one message, and
-- one round of the loop on what the SPI read gave.
pub mod Uploaded
pub mod Replies
pub mod Launch
pub mod Exits
pub mod Reach
pub mod Invariant
pub mod Trusted
pub mod Guarded
pub mod Glitched
pub mod Wired
use prime_ble_firmware.Base.{
  ℕ, Bool, true, false, ◌&&◌, List, [], ◌∷◌, Option, none, some, ◌==◌, if◌then◌else◌, replicate,
  map,
}
use prime_ble_firmware.Consts.{
  base_app_addr, signature_header_size, uicr_seal_index, uicr_sealed_secret, uicr_sealed_wiped,
}
use prime_ble_firmware.Protocol.{
  Bytes, Bluetooth, Bootloader, HostProtocolMessage, State, PostcardError, TrustLevel,
}
use prime_ble_firmware.Protocol.Frame.{ack_msg_send}
use prime_ble_firmware.Platform.{
  NorFlash, Uicr, MicroEcc, Cosign, Digests, Codec, VerificationResult,
}
use prime_ble_firmware.Boot.Memory.{
  Store, boot_state_reset, get_fw_image_slice, erase_firmware, write_firmware_block,
}
use prime_ble_firmware.Boot.Secret.{Vault, write_secret, challenge_set, challenge_request}
use prime_ble_firmware.Boot.Verify.{is_developer, read_version_and_build_date, verify_fw_image}
use prime_ble_firmware.Boot.Protect.{
  Bprot, Entry, flash_protect_mbr_bootloader, bprot_reset, flash_protect_sd_application,
  app_vectors,
}

-- What the bootloader is built on.
pub record Board : Type 1 where
  pub flash : NorFlash
  pub uicr : Uicr
  pub ecc : MicroEcc
  pub cosign : Cosign
  pub digests : Digests
  pub codec : Codec

-- `env!("CARGO_PKG_VERSION")`: "3.0.3" in bootloader/Cargo.toml.
abbrev pub cargo_pkg_version : Bytes
cargo_pkg_version = b'3' ∷ b'.' ∷ b'0' ∷ b'.' ∷ b'3' ∷ []

-- What the SPI read gives.
pub data SpiRead : Type 0 where
  failed : SpiRead
  received : Bytes → SpiRead

module _ (b : Board) where
  -- The chip and the variables of `main`.
  pub record Loader : Type 0 where
    pub store : Store b.flash
    pub vault : Vault b.uicr
    pub bprot : Bprot

  -- How the handling of a message ends: back in the loop, perhaps with a response; in the
  -- application, after a response; or in a reset.
  pub data Outcome : Type 0 where
    responds : Option HostProtocolMessage → Outcome
    boots : HostProtocolMessage → Entry → Outcome
    resets : Outcome

  abbrev reply : Bootloader → Outcome
  reply m = responds (some (HostProtocolMessage.bootloader m))

  -- From a reset to the loop.
  unfoldable pub start : b.flash.Mem → b.uicr.Regs → Loader
  start m r = record {
    store = record { mem = m; boot_status = boot_state_reset };
    vault = record { regs = r; seal = b.uicr.customer r uicr_seal_index };
    bprot = flash_protect_mbr_bootloader bprot_reset;
  }

  version_reply : Option (Bytes × Bytes) → Bootloader
  version_reply (some (version, build_date)) = Bootloader.ack_firmware_version version
  version_reply none = Bootloader.no_cosign_header

  unfoldable pub firmware_version : Loader → Bootloader
  unfolding version_reply
  firmware_version s = version_reply (
      read_version_and_build_date b.ecc b.cosign b.digests
        (get_fw_image_slice b.flash s.store.mem base_app_addr signature_header_size) false)

  -- The secret does not outlive a boot that the developer keys may have signed.
  unfoldable pub clear_secret : TrustLevel → Vault b.uicr → Vault b.uicr
  clear_secret trust v =
      if v.seal == uicr_sealed_secret && is_developer trust
      then record v { regs = (write_secret b.uicr v.regs (replicate 8 0) uicr_sealed_wiped).0 }
      else v

  launch : TrustLevel → Loader → Bytes → Loader × Outcome
  unfolding clear_secret
  launch trust s hash = (
    record s { vault = clear_secret trust s.vault; bprot = flash_protect_sd_application s.bprot },
    boots (HostProtocolMessage.bootloader (Bootloader.ack_verify_firmware true hash))
        (app_vectors b.flash s.store.mem),
  )

  unfoldable pub verdict :
      TrustLevel
      → Loader
      → Option (VerificationResult × VerificationResult × Bytes)
      → Loader × Outcome
  unfolding launch
  verdict trust s none = (s, reply Bootloader.no_cosign_header)
  verdict trust s (some (VerificationResult.valid, VerificationResult.valid, hash)) =
      launch trust s hash
  verdict trust s (some (VerificationResult.valid, VerificationResult.invalid, hash)) =
      (s, reply (Bootloader.ack_verify_firmware false hash))
  verdict trust s (some (VerificationResult.invalid, _, hash)) =
      (s, reply (Bootloader.ack_verify_firmware false hash))

  unfoldable pub boot_firmware : TrustLevel → Loader → Loader × Outcome
  unfolding verdict
  boot_firmware trust s =
      verdict trust s (verify_fw_image b.ecc b.cosign b.digests b.flash s.store.mem trust)

  unfoldable pub handle_bootloader : Bootloader → Loader → Loader × Outcome
  unfolding firmware_version boot_firmware
  handle_bootloader Bootloader.erase_firmware s =
      let r = erase_firmware b.flash s.store in (record s { store = r.0 }, reply r.1)
  handle_bootloader (Bootloader.write_firmware_block idx block) s =
      let r = write_firmware_block b.flash b.digests s.store idx block in
      (record s { store = r.0 }, reply r.1)
  handle_bootloader Bootloader.firmware_version s = (s, reply (firmware_version s))
  handle_bootloader Bootloader.bootloader_version s =
      (s, reply (Bootloader.ack_bootloader_version cargo_pkg_version))
  handle_bootloader (Bootloader.challenge_set secret) s =
      let r = challenge_set b.uicr s.vault secret in
      (record s { vault = r.0 }, reply (Bootloader.ack_challenge_set r.1))
  handle_bootloader (Bootloader.boot_firmware trust) s = boot_firmware trust s
  handle_bootloader _ s = (s, responds none)

  unfoldable pub handle : HostProtocolMessage → Loader → Loader × Outcome
  unfolding handle_bootloader
  handle (HostProtocolMessage.bootloader boot_msg) s = handle_bootloader boot_msg s
  handle HostProtocolMessage.reset s = (s, resets)
  handle (HostProtocolMessage.challenge_request nonce) s =
      (s, responds (some (challenge_request b.uicr b.digests s.vault nonce)))
  handle HostProtocolMessage.get_state s =
      (s, responds (some (HostProtocolMessage.ack_state State.firmware_upgrade)))
  handle _ s =
      (s, responds (some (HostProtocolMessage.inappropriate_message State.firmware_upgrade)))

  unfoldable pub handle_read : Option HostProtocolMessage → Loader → Loader × Outcome
  unfolding handle
  handle_read (some req) s = handle req s
  handle_read none s = (s, responds (some (HostProtocolMessage.postcard_error PostcardError.deser)))

  -- What a round of the loop shows outside: the frame on the SPI, if any, and how it ends.
  pub data Turn : Type 0 where
    continues : Option Bytes → Turn
    enters : Option Bytes → Entry → Turn
    restarts : Turn

  send : Option HostProtocolMessage → Option Bytes
  send none = none
  send (some m) = ack_msg_send b.codec m

  unfoldable pub finish : Outcome → Turn
  unfolding send
  finish (responds m) = continues (send m)
  finish (boots m entry) = enters (ack_msg_send b.codec m) entry
  finish resets = restarts

  unfoldable pub round : SpiRead → Loader → Loader × Turn
  unfolding handle_read finish
  round SpiRead.failed s = (s, continues none)
  round (SpiRead.received []) s = (s, continues none)
  round (SpiRead.received (x ∷ buf)) s =
      let r = handle_read (b.codec.from_bytes (x ∷ buf)) s in (r.0, finish r.1)
