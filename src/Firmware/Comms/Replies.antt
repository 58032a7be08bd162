-- ===== src/Firmware/Comms/Replies.antt =====
-- Which messages firmware/src/comms.rs serves, and with what it answers.
use prime_ble_firmware.Base.{◌≡◌, ◌↔◌, Bool, false, arith}
use prime_ble_firmware.Protocol.{HostProtocolMessage, is_request}
use prime_ble_firmware.Boot.Secret.{hmac_challenge_response}
use prime_ble_firmware.Firmware.Kernel.{Kernel, World, CommsContext}
use prime_ble_firmware.Firmware.Comms.{Answer, get_state, host_protocol_handler}

-- The requests that are meant for the firmware: all but the bootloader's.
abbrev pub is_firmware_request : HostProtocolMessage → Bool
is_firmware_request (HostProtocolMessage.bootloader _) = false
is_firmware_request m = is_request m

module _ (k : Kernel) where
  -- A message is called inappropriate, with the state of the controller, exactly if it is no
  -- request for the firmware.
  pub host_protocol_handler_inappropriate :
      (m : HostProtocolMessage) (context : CommsContext) (w : World k)
      → ((host_protocol_handler k m context w).1
          ≡ Answer.answers (HostProtocolMessage.inappropriate_message (get_state k w)))
        ↔ (is_firmware_request m ≡ false)
  unfolding host_protocol_handler is_request hmac_challenge_response
  host_protocol_handler_inappropriate m context w = ground arith

  -- A response of the firmware is never a request.
  pub host_protocol_handler_response :
      (m r : HostProtocolMessage) (context : CommsContext) (w : World k)
      → (host_protocol_handler k m context w).1 ≡ Answer.answers r
      → is_request r ≡ false
  unfolding host_protocol_handler is_request hmac_challenge_response
  host_protocol_handler_response m r context w h = ground arith
