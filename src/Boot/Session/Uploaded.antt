-- ===== src/Boot/Session/Uploaded.antt =====
-- A whole update and the boot request after it, as the loop of bootloader/src/main.rs serves their
-- messages.
use prime_ble_firmware.Base.{
  ◌≤◌, ◌≡◌, refl, sym, subst, ap, ◌∙◌, true, ◌||◌, List, [], ◌∷◌, some, map, length,
}
use prime_ble_firmware.Consts.{app_size, signature_header_size}
use prime_ble_firmware.Protocol.{Bytes, Bootloader, HostProtocolMessage, TrustLevel}
use prime_ble_firmware.Platform.{NorFlashLaws, Parsed}
use prime_ble_firmware.Boot.Memory.{erase_firmware, write_firmware_block}
use prime_ble_firmware.Boot.Memory.Upload.{Blocks, image, acks, write_blocks}
use prime_ble_firmware.Boot.Memory.Upload.Area.{padded, area-write_blocks}
use prime_ble_firmware.Boot.Protect.{app_vectors}
use prime_ble_firmware.Boot.Verify.{
  known_signers, verify_ecdsa, is_developer, read_version_and_build_date,
}
use prime_ble_firmware.Boot.Verify.Trust.{app_image, verify_fw_image_accepts}
use prime_ble_firmware.Boot.Session.{Board, Loader, Outcome, handle, verdict}

module _ (b : Board) where
  -- What makes an image bootable: cosign2 accepts its header, whose version and date can be read,
  -- and which is fully trusted unless developer images are allowed.
  pub record IsBootable (trust : TrustLevel) (img : Bytes) (header : b.cosign.Header) : Type 0 where
    pub parsed :
        b.cosign.parse img known_signers b.digests.sha256 (verify_ecdsa b.ecc) signature_header_size
        ≡ Parsed.ok (some header)
    pub version : Bytes × Bytes
    pub read : read_version_and_build_date b.ecc b.cosign b.digests img true ≡ some version
    pub trusted : b.cosign.is_fully_trusted header || is_developer trust ≡ true

  -- A boot request enters an image that is bootable.
  handle-IsBootable :
      (s : Loader b) (trust : TrustLevel) (header : b.cosign.Header)
      → IsBootable trust (app_image b.ecc b.cosign b.digests b.flash s.store.mem) header
      → (handle b (HostProtocolMessage.bootloader (Bootloader.boot_firmware trust)) s).1
        ≡ Outcome.boots
            (HostProtocolMessage.bootloader
              (Bootloader.ack_verify_firmware true (b.cosign.binary_hash header)))
            (app_vectors b.flash s.store.mem)
  unfolding handle verdict
  handle-IsBootable s trust header v =
      let accepted =
        verify_fw_image_accepts b.ecc b.cosign b.digests b.flash s.store.mem trust header v.version
          v.parsed v.read v.trusted in
      ap (λ r. (verdict b trust s r).1) accepted

  -- The messages in a row, with how each is answered.
  unfoldable pub handle_all : Loader b → List HostProtocolMessage → Loader b × List (Outcome b)
  handle_all s [] = (s, [])
  handle_all s (m ∷ rest) =
      let one = handle b m s in let others = handle_all one.0 rest in (others.0, one.1 ∷ others.1)

  abbrev responds : Bootloader → Outcome b
  responds m = Outcome.responds (some (HostProtocolMessage.bootloader m))

  abbrev pub block_messages : Blocks → List HostProtocolMessage
  block_messages [] = []
  block_messages ((idx, block) ∷ rest) =
      HostProtocolMessage.bootloader (Bootloader.write_firmware_block idx block)
      ∷ block_messages rest

  -- An erase and the blocks.
  abbrev pub update_messages : Blocks → List HostProtocolMessage
  update_messages blocks =
      HostProtocolMessage.bootloader Bootloader.erase_firmware ∷ block_messages blocks

  -- Every message is acknowledged.
  abbrev pub update_acks : Blocks → List (Outcome b)
  update_acks blocks =
      responds Bootloader.ack_erase_firmware ∷ map responds (acks b.flash b.digests blocks)

  handle_all-blocks :
      (s : Loader b) (blocks : Blocks)
      → ((handle_all s (block_messages blocks)).0.store
          ≡ (write_blocks b.flash b.digests s.store blocks).0)
        × ((handle_all s (block_messages blocks)).1
            ≡ map responds (write_blocks b.flash b.digests s.store blocks).1)
  unfolding handle_all write_blocks handle
  handle_all-blocks s [] = (refl, refl)
  handle_all-blocks s ((idx, block) ∷ rest) =
      let one = write_firmware_block b.flash b.digests s.store idx block in
      let (stored, answers) = handle_all-blocks (record s { store = one.0 }) rest in
      (stored, ap (λ xs. responds one.1 ∷ xs) answers)

  -- The answer behind an outcome.
  reply_of : Outcome b → Bootloader
  reply_of (Outcome.responds (some (HostProtocolMessage.bootloader m))) = m
  reply_of _ = Bootloader.ack_erase_firmware

  replies-responds : (xs : List Bootloader) → map reply_of (map responds xs) ≡ xs
  unfolding reply_of
  replies-responds [] = refl
  replies-responds (x ∷ xs) = ap (x ∷◌) (replies-responds xs)

  responds-injective : (xs ys : List Bootloader) → map responds xs ≡ map responds ys → xs ≡ ys
  responds-injective xs ys e = sym (replies-responds xs) ∙ ap (map reply_of) e ∙ replies-responds ys

  -- If an erase and then every block are acknowledged, the blocks together fit the area, and they
  -- make up, with ones behind them, an image that cosign2 accepts, whose version and date can be
  -- read, and that is fully trusted unless the request allows developer images, then a boot request
  -- enters the application, and reports success with the hash of the image's header.
  pub handle_all-boots :
      (laws : NorFlashLaws b.flash) (s : Loader b) (blocks : Blocks) (trust : TrustLevel)
      (header : b.cosign.Header)
      → (handle_all s (update_messages blocks)).1 ≡ update_acks blocks
      → length (image blocks) ≤ app_size
      → IsBootable trust (padded (image blocks)) header
      → let t = (handle_all s (update_messages blocks)).0 in
        (handle b (HostProtocolMessage.bootloader (Bootloader.boot_firmware trust)) t).1
        ≡ Outcome.boots
            (HostProtocolMessage.bootloader
              (Bootloader.ack_verify_firmware true (b.cosign.binary_hash header)))
            (app_vectors b.flash t.store.mem)
  unfolding handle_all handle
  handle_all-boots laws s blocks trust header acked fits v =
      let first = erase_firmware b.flash s.store in
      let u : Loader b = record s { store = first.0 } in
      let t = (handle_all s (update_messages blocks)).0 in
      let (stored, answers) = handle_all-blocks u blocks in
      let erased : first.1 ≡ Bootloader.ack_erase_firmware = cc in
      let written : (write_blocks b.flash b.digests first.0 blocks).1
          ≡ acks b.flash b.digests blocks =
        responds-injective _ _ (sym answers ∙ (cc)) in
      let area =
        ap (app_image b.ecc b.cosign b.digests b.flash) (ap (λ st. st.mem) stored)
        ∙ area-write_blocks b.flash b.digests laws s.store blocks erased written fits in
      handle-IsBootable t trust header (subst (λ img. IsBootable trust img header) (sym area) v)
