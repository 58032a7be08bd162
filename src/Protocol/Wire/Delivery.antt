-- ===== src/Protocol/Wire/Delivery.antt =====
-- A message over the wire: what `ack_msg_send` sends of it is what the other side reads.
use prime_ble_firmware.Base.{
  ◌+◌, ◌*◌, ◌≤◌, ◌≡◌, false, Option, some, arith, length, drop, get_or, subst, sym, [], ◌++◌,
}
use mathlib.Core.List.{append-nil}
use prime_ble_firmware.Consts.{max_msg_size}
use prime_ble_firmware.Protocol.{Bytes, HostProtocolMessage, is_request}
use prime_ble_firmware.Protocol.Frame.{u16_be_bytes, ack_msg_send}
use prime_ble_firmware.Platform.{Codec}
use prime_ble_firmware.Protocol.Wire.{Postcard, PostcardLaws}
use prime_ble_firmware.Protocol.Wire.Messages.{write_message, wire_codec}
use prime_ble_firmware.Protocol.Wire.Validity.{IsMessage}
use prime_ble_firmware.Protocol.Wire.RoundTrip.Messages.{from_bytes-write_message}
use prime_ble_firmware.Protocol.Wire.Sizes.{IsBrief}
use prime_ble_firmware.Protocol.Wire.Sizes.Messages.{length-write_message}

module _ (p : Postcard) where
  -- What goes out is a frame that the other side can take: it is no longer than its buffer, the
  -- first two bytes give the length of the rest, and the rest is read as the message.
  pub record Delivers (sent : Option Bytes) (m : HostProtocolMessage) : Type 0 where
    pub frame : Bytes
    pub is_sent : sent ≡ some frame
    pub length-frame : length frame ≤ max_msg_size
    pub header : get_or frame 0 0 * 256 + get_or frame 1 0 ≡ length (drop 2 frame)
    pub is_read : (wire_codec p).from_bytes (drop 2 frame) ≡ some m

  module _ (laws : PostcardLaws p) where
    -- Every message that its type can hold is delivered, if the version in it has at most 264 bytes
    -- and the block in it at most 259: it is never dropped for want of room, and the other side
    -- reads it as it was.
    pub ack_msg_send-Delivers :
        (m : HostProtocolMessage)
        → IsMessage p m
        → IsBrief m
        → Delivers (ack_msg_send (wire_codec p) m) m
    unfolding ack_msg_send
    ack_msg_send-Delivers m h brief =
        let le = length-write_message p laws m h brief in
        record {
          frame = u16_be_bytes (length (write_message p m)) ++ write_message p m;
          is_sent = ground arith;
          length-frame = omega arith;
          header = ground arith;
          is_read =
              ground (arith, append-nil (write_message p m), from_bytes-write_message p laws m []);
        }

-- What a request that the other side sent is answered with.
pub record Answers (p : Postcard) (sent : Option Bytes) : Type 0 where
  pub response : HostProtocolMessage
  pub is_response : is_request response ≡ false
  pub delivered : Delivers p sent response

-- A brief response is one that the other side reads.
pub ack_msg_send-Answers :
    (p : Postcard) (laws : PostcardLaws p) (c : Codec) (r : HostProtocolMessage)
    → c ≡ wire_codec p
    → IsMessage p r × IsBrief r
    → is_request r ≡ false
    → Answers p (ack_msg_send c r)
ack_msg_send-Answers p laws c r wired h response = record {
  response = r;
  is_response = response;
  delivered =
      subst (λ d. Delivers p (ack_msg_send d r) r) (sym wired)
        (ack_msg_send-Delivers p laws r h.0 h.1);
}
