-- ===== src/Protocol/Frame.antt =====
-- The framing of a response: `ack_msg_send` of bootloader/src/main.rs, and the end of the loop in
-- `comms_task` of firmware/src/comms.rs, which does the same with its own buffer.
use prime_ble_firmware.Base.{
  ℕ, ◌+◌, ◌-◌, ◌*◌, ◌/◌, ◌%◌, ◌≤◌, ◌≡◌, [], ◌∷◌, ◌++◌, Option, none, some, arith, length, drop,
  get_or, Option-cases, inl, inr,
}
use prime_ble_firmware.Consts.{max_msg_size}
use prime_ble_firmware.Protocol.{Bytes, HostProtocolMessage}
use prime_ble_firmware.Platform.{Codec, CodecLaws}

-- `u16::to_be_bytes(n as u16)`.
abbrev pub u16_be_bytes : ℕ → Bytes
u16_be_bytes n = (n / 256 % 256) ∷ (n % 256) ∷ []

module _ (c : Codec) where
  with_length : Option Bytes → Option Bytes
  with_length none = none
  with_length (some resp) = some (u16_be_bytes (length resp) ++ resp)

  -- What goes out on the SPI, or nothing if the message does not fit.
  unfoldable pub ack_msg_send : HostProtocolMessage → Option Bytes
  unfolding with_length
  ack_msg_send message = with_length (c.to_slice message (max_msg_size - 2))

  -- A frame that goes out is at most as long as the other side's buffer; its first two bytes give
  -- the length of the rest, high byte first, and the rest is what postcard made of the message.
  pub ack_msg_send_frame :
      (laws : CodecLaws c) (message : HostProtocolMessage) (frame : Bytes)
      → ack_msg_send message ≡ some frame
      → (length frame ≤ max_msg_size)
        × (get_or frame 0 0 * 256 + get_or frame 1 0 ≡ length (drop 2 frame))
        × (c.to_slice message (max_msg_size - 2) ≡ some (drop 2 frame))
  unfolding ack_msg_send
  ack_msg_send_frame laws message frame h =
      elim (Option-cases (c.to_slice message (max_msg_size - 2))) [
        | inl e ↦ ground arith
        | inr (resp, e) ↦ ground (arith, laws.length-to_slice message (max_msg_size - 2) resp e)
      ]
