-- ===== src/Boot/Session/Replies.antt =====
-- What the bootloader answers with.
use prime_ble_firmware.Base.{◌≡◌, false, some, arith}
use prime_ble_firmware.Protocol.{HostProtocolMessage, is_request}
use prime_ble_firmware.Boot.Session.{Board, Loader, Outcome, handle}
use prime_ble_firmware.Boot.Memory.{erase_firmware, write_firmware_block}
use prime_ble_firmware.Boot.Secret.{challenge_request}

module _ (b : Board) where
  -- A response of the bootloader is never a request.
  pub handle_response :
      (m r : HostProtocolMessage) (s : Loader b)
      → (handle b m s).1 ≡ Outcome.responds (some r)
      → is_request r ≡ false
  unfolding handle is_request erase_firmware write_firmware_block challenge_request
  handle_response m r s h = ground arith
