-- ===== src/Boot/Session/Exits.antt =====
-- How bootloader/src/main.rs leaves its loop: into the application, or in a reset.
use prime_ble_firmware.Base.{◌≡◌, refl, [], ◌∷◌, Option, none, some, arith}
use prime_ble_firmware.Protocol.{Bytes, Bootloader, HostProtocolMessage, TrustLevel}
use prime_ble_firmware.Platform.{VerificationResult}
use prime_ble_firmware.Boot.Protect.{Entry}
use prime_ble_firmware.Boot.Verify.{verify_fw_image}
use prime_ble_firmware.Boot.Session.{
  Board, Loader, Outcome, SpiRead, Turn, verdict, handle, handle_read, finish, round,
}

module _ (b : Board) where
  finish-enters :
      (o : Outcome b) (frame : Option Bytes) (entry : Entry)
      → finish b o ≡ Turn.enters frame entry
      → (r : HostProtocolMessage) × (o ≡ Outcome.boots r entry)
  unfolding finish
  finish-enters (Outcome.responds answer) frame entry h = absurd (cc)
  finish-enters (Outcome.boots r vectors) frame entry h = (r, ground arith)
  finish-enters Outcome.resets frame entry h = absurd (cc)

  finish-restarts : (o : Outcome b) → finish b o ≡ Turn.restarts → o ≡ Outcome.resets
  unfolding finish
  finish-restarts o h = ground arith

  handle_read-boots :
      (o : Option HostProtocolMessage) (s : Loader b) (frame : Option Bytes) (entry : Entry)
      → finish b (handle_read b o s).1 ≡ Turn.enters frame entry
      → (m r : HostProtocolMessage) × ((handle b m s).1 ≡ Outcome.boots r entry)
        × ((handle_read b o s).0 ≡ (handle b m s).0)
  unfolding handle_read finish
  handle_read-boots none s frame entry h = absurd (cc)
  handle_read-boots (some m) s frame entry h =
      let (r, booted) = finish-enters (handle b m s).1 frame entry h in (m, r, booted, refl)

  -- A round that enters the application has handled a message that boots.
  pub round-boots :
      (read : SpiRead) (s : Loader b) (frame : Option Bytes) (entry : Entry)
      → (round b read s).1 ≡ Turn.enters frame entry
      → (m r : HostProtocolMessage) × ((handle b m s).1 ≡ Outcome.boots r entry)
        × ((round b read s).0 ≡ (handle b m s).0)
  unfolding round
  round-boots SpiRead.failed s frame entry h = absurd (cc)
  round-boots (SpiRead.received []) s frame entry h = absurd (cc)
  round-boots (SpiRead.received (x ∷ buf)) s frame entry h =
      handle_read-boots (b.codec.from_bytes (x ∷ buf)) s frame entry h

  verdict_never_resets :
      (trust : TrustLevel) (s : Loader b)
      (v : Option (VerificationResult × VerificationResult × Bytes))
      → (verdict b trust s v).1 ≡ Outcome.resets
      → (verdict b trust s v).0 ≡ s
  unfolding verdict
  verdict_never_resets trust s v h = ground arith

  handle-resets :
      (m : HostProtocolMessage) (s : Loader b)
      → (handle b m s).1 ≡ Outcome.resets
      → (handle b m s).0 ≡ s
  unfolding handle
  handle-resets (HostProtocolMessage.bootloader (Bootloader.boot_firmware trust)) s h =
      verdict_never_resets trust s
        (verify_fw_image b.ecc b.cosign b.digests b.flash s.store.mem trust) h
  handle-resets m s h = ground arith

  handle_read-resets :
      (o : Option HostProtocolMessage) (s : Loader b)
      → finish b (handle_read b o s).1 ≡ Turn.restarts
      → (handle_read b o s).0 ≡ s
  unfolding handle_read finish
  handle_read-resets none s h = refl
  handle_read-resets (some m) s h = handle-resets m s (finish-restarts (handle b m s).1 h)

  -- A round that resets the chip has changed nothing.
  pub round-resets :
      (read : SpiRead) (s : Loader b) → (round b read s).1 ≡ Turn.restarts → (round b read s).0 ≡ s
  unfolding round
  round-resets SpiRead.failed s h = refl
  round-resets (SpiRead.received []) s h = refl
  round-resets (SpiRead.received (x ∷ buf)) s h =
      handle_read-resets (b.codec.from_bytes (x ∷ buf)) s h
