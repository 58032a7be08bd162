-- ===== src/Firmware/Comms/Answered.antt =====
-- A round of `comms_task` of firmware/src/comms.rs on postcard's bytes: whether it is answered.
use prime_ble_firmware.Base.{
  ℕ, ◌≤◌, ◌≡◌, refl, sym, subst, ap, Option, none, some, inl, inr, arith, Option-cases, length,
}
use prime_ble_firmware.Base.Int.{ℤ}
use prime_ble_firmware.Consts.{app_mtu, uicr_secret_start, uicr_secret_size}
use prime_ble_firmware.Protocol.{Bytes, Bluetooth, HostProtocolMessage, PostcardError, is_request}
use prime_ble_firmware.Protocol.Wire.{Postcard, PostcardLaws, IsU8, IsI8}
use prime_ble_firmware.Protocol.Wire.Parts.{IsArray}
use prime_ble_firmware.Protocol.Wire.Messages.{wire_codec}
use prime_ble_firmware.Protocol.Wire.Validity.{IsMessage}
use prime_ble_firmware.Protocol.Wire.Sizes.{IsBrief}
use prime_ble_firmware.Protocol.Wire.Delivery.{Answers, ack_msg_send-Answers}
use prime_ble_firmware.Protocol.Wire.Decoded.Messages.{from_bytes-IsMessage}
use prime_ble_firmware.Boot.Secret.{be_bytes, hmac_challenge_response}
use prime_ble_firmware.Firmware.Kernel.{Kernel, World, CommsContext}
use prime_ble_firmware.Firmware.Comms.{
  Answer, CommsTurn, cargo_pkg_version, bluetooth_handler, host_protocol_handler, finish, respond,
  comms_round,
}
use prime_ble_firmware.Firmware.Comms.Replies.{host_protocol_handler_response}

-- The types of what the handler finds: an HMAC of 32 bytes, a signal strength in an `i8`, packets
-- of at most `APP_MTU` bytes, an address of 6 bytes and an identity of 8.
pub record FoundLaws (p : Postcard) (k : Kernel) (context : CommsContext) : Type 0 where
  pub hmac_sha256-IsArray :
      (key message mac : Bytes) → k.digests.hmac_sha256 key message ≡ some mac → IsArray IsU8 32 mac
  pub rssi-IsI8 :
      (air : k.radio.Air) (c : k.radio.Connection) (r : ℤ) → k.radio.rssi air c ≡ some r → IsI8 r
  pub try_receive-le :
      (q q' : k.data_rx.Queue) (packet : Bytes)
      → k.data_rx.try_receive q ≡ some (packet, q')
      → length packet ≤ app_mtu
  pub address-IsArray : IsArray IsU8 6 context.address
  pub device_id-IsArray : IsArray IsU8 8 context.device_id

-- A round is answered if the other side reads a response in the frame that is sent, or if the round
-- is that of a reset.
abbrev pub IsAnswered : (p : Postcard) (k : Kernel) → Bytes → CommsTurn k → Type 0
IsAnswered p k received (CommsTurn.continues frame) = Answers p frame
IsAnswered p k received CommsTurn.restarts =
    (wire_codec p).from_bytes received ≡ some HostProtocolMessage.reset

module _ (p : Postcard) (laws : PostcardLaws p) (k : Kernel) (context : CommsContext)
    (found : FoundLaws p k context) where
  abbrev IsReply : Answer → Type 0
  IsReply (Answer.answers r) = IsMessage p r × IsBrief r
  IsReply Answer.resets = Unit {0}

  hmac_challenge_response-IsReply :
      (w : World k) (nonce : ℕ)
      → IsReply (Answer.answers (hmac_challenge_response k.uicr k.digests w.regs nonce))
  unfolding hmac_challenge_response
  hmac_challenge_response-IsReply w nonce =
      let key : Bytes = k.uicr.raw w.regs uicr_secret_start uicr_secret_size in
      elim (Option-cases (k.digests.hmac_sha256 key (be_bytes 8 nonce))) [
        | inl e ↦ ground arith
        | inr (mac, e) ↦ ground (arith, found.hmac_sha256-IsArray key (be_bytes 8 nonce) mac e)
      ]

  bluetooth_handler-IsReply :
      (m : Bluetooth) (w : World k)
      → IsMessage p (HostProtocolMessage.bluetooth m)
      → IsReply (bluetooth_handler k m context w).1
  unfolding bluetooth_handler
  bluetooth_handler-IsReply Bluetooth.get_status w h = elim (Option-cases w.connection) [
    | inl e ↦ ground arith
    | inr (c, e) ↦ elim (Option-cases (k.radio.rssi w.air c)) [
      | inl e' ↦ ground arith
      | inr (r, e') ↦ ground (arith, found.rssi-IsI8 w.air c r e')
    ]
  ]
  bluetooth_handler-IsReply Bluetooth.get_received_data w h =
      elim (Option-cases (k.data_rx.try_receive w.bt_data_rx)) [
        | inl e ↦ ground arith
        | inr ((packet, q'), e) ↦ ground (arith, found.try_receive-le w.bt_data_rx q' packet e)
      ]
  bluetooth_handler-IsReply Bluetooth.get_firmware_version w h =
      ground (arith, laws.is_utf8-ascii cargo_pkg_version refl)
  bluetooth_handler-IsReply Bluetooth.get_bt_address w h = (found.address-IsArray, tt)
  bluetooth_handler-IsReply Bluetooth.get_device_id w h = (found.device_id-IsArray, tt)
  bluetooth_handler-IsReply (Bluetooth.disable_channels chan) w h = ground arith
  bluetooth_handler-IsReply (Bluetooth.send_data packet) w h = ground arith
  bluetooth_handler-IsReply (Bluetooth.echo msg) w h = (h, tt)
  bluetooth_handler-IsReply _ w h = (tt, tt)

  host_protocol_handler-IsReply :
      (m : HostProtocolMessage) (w : World k)
      → IsMessage p m
      → IsReply (host_protocol_handler k m context w).1
  unfolding host_protocol_handler
  host_protocol_handler-IsReply (HostProtocolMessage.bluetooth sub) w h =
      bluetooth_handler-IsReply sub w h
  host_protocol_handler-IsReply (HostProtocolMessage.challenge_request nonce) w h =
      hmac_challenge_response-IsReply w nonce
  host_protocol_handler-IsReply HostProtocolMessage.reset w h = tt
  host_protocol_handler-IsReply _ w h = (tt, tt)

host_protocol_handler_resets :
    (k : Kernel) (m : HostProtocolMessage) (context : CommsContext) (w : World k)
    → (host_protocol_handler k m context w).1 ≡ Answer.resets
    → m ≡ HostProtocolMessage.reset
unfolding host_protocol_handler hmac_challenge_response
host_protocol_handler_resets k m context w h = ground arith

module _ (p : Postcard) (laws : PostcardLaws p) (k : Kernel) (wired : k.codec ≡ wire_codec p)
    (context : CommsContext) (found : FoundLaws p k context) where
  finish-IsAnswered :
      (received : Bytes) (m : HostProtocolMessage) (w : World k) (a : Answer)
      → (wire_codec p).from_bytes received ≡ some m
      → (host_protocol_handler k m context w).1 ≡ a
      → IsAnswered p k received (finish k a)
  unfolding finish
  finish-IsAnswered received m w (Answer.answers r) e h =
      ack_msg_send-Answers p laws k.codec r wired
        (subst (IsReply p laws k context found) h (
          host_protocol_handler-IsReply p laws k context found m w
            (from_bytes-IsMessage p laws received m e).0))
        (host_protocol_handler_response k m r context w h)
  finish-IsAnswered received m w Answer.resets e h =
      subst (λ m'. (wire_codec p).from_bytes received ≡ some m')
        (host_protocol_handler_resets k m context w h) e

  respond-IsAnswered :
      (received : Bytes) (w : World k) (parsed : Option HostProtocolMessage)
      → (wire_codec p).from_bytes received ≡ parsed
      → IsAnswered p k received (finish k (respond k parsed context w).1)
  unfolding respond finish is_request
  respond-IsAnswered received w none e =
      ack_msg_send-Answers p laws k.codec (HostProtocolMessage.postcard_error PostcardError.deser)
        wired (tt, tt) refl
  respond-IsAnswered received w (some m) e =
      finish-IsAnswered received m w (host_protocol_handler k m context w).1 e refl

  -- On postcard's wire format, with MACs, signal strengths, packets, address and identity of their
  -- types: whatever bytes the SPI read gives, and whatever the state, the firmware answers them,
  -- but for a reset. A frame goes out in which the other side reads a response.
  pub comms_round-IsAnswered :
      (received : Bytes) (w : World k)
      → IsAnswered p k received (comms_round k (some received) context w).1
  unfolding comms_round
  comms_round-IsAnswered received w =
      respond-IsAnswered received w (k.codec.from_bytes received)
        (ap (λ c. c.from_bytes received) (sym wired))
