-- ===== src/Boot/Session/Wired/Answered.antt =====
-- A round of the loop of bootloader/src/main.rs on what the SPI received: whether it is answered.
use prime_ble_firmware.Base.{
  ◌≡◌, ℕ, refl, sym, subst, ap, true, false, ◌∷◌, Option, none, some, arith,
}
use prime_ble_firmware.Protocol.{Bytes, HostProtocolMessage, PostcardError, is_request}
use prime_ble_firmware.Protocol.Wire.{Postcard, PostcardLaws}
use prime_ble_firmware.Protocol.Wire.Messages.{wire_codec}
use prime_ble_firmware.Protocol.Wire.Delivery.{Answers, ack_msg_send-Answers}
use prime_ble_firmware.Protocol.Wire.Decoded.Messages.{from_bytes-IsMessage}
use prime_ble_firmware.Boot.Memory.{erase_firmware, write_firmware_block}
use prime_ble_firmware.Boot.Secret.{challenge_request}
use prime_ble_firmware.Boot.Protect.{Entry}
use prime_ble_firmware.Boot.Session.{
  Board, Loader, Outcome, SpiRead, Turn, handle, handle_read, finish, round,
}
use prime_ble_firmware.Boot.Session.Replies.{handle_response}
use prime_ble_firmware.Boot.Session.Wired.{ResultLaws, IsReplyOutcome, handle-IsReply}

-- A round is answered if the other side reads a response in the frame that is sent, or if the round
-- is that of a reset.
abbrev pub IsAnswered : (p : Postcard) (b : Board) → Bytes → Turn b → Type 0
IsAnswered p b received (Turn.continues frame) = Answers p frame
IsAnswered p b received (Turn.enters frame entry) = Answers p frame
IsAnswered p b received Turn.restarts =
    (wire_codec p).from_bytes received ≡ some HostProtocolMessage.reset

module _ (b : Board) where
  handle-boots_response :
      (m r : HostProtocolMessage) (entry : Entry) (s : Loader b)
      → (handle b m s).1 ≡ Outcome.boots r entry
      → is_request r ≡ false
  unfolding handle is_request erase_firmware write_firmware_block challenge_request
  handle-boots_response m r entry s h = ground arith

  handle-is_request :
      (m : HostProtocolMessage) (s : Loader b)
      → is_request m ≡ true
      → (handle b m s).1 ≡ Outcome.responds none
      → ⊥
  unfolding handle is_request erase_firmware write_firmware_block challenge_request
  handle-is_request m s req h = ground arith

  handle_resets :
      (m : HostProtocolMessage) (s : Loader b)
      → (handle b m s).1 ≡ Outcome.resets
      → m ≡ HostProtocolMessage.reset
  unfolding handle is_request erase_firmware write_firmware_block challenge_request
  handle_resets m s h = ground arith

module _ (p : Postcard) (laws : PostcardLaws p) (b : Board) (wired : b.codec ≡ wire_codec p)
    (results : ResultLaws p b.cosign b.digests) where
  finish-IsAnswered :
      (received : Bytes) (m : HostProtocolMessage) (s : Loader b) (o : Outcome b)
      → (wire_codec p).from_bytes received ≡ some m
      → is_request m ≡ true
      → (handle b m s).1 ≡ o
      → IsAnswered p b received (finish b o)
  unfolding finish
  finish-IsAnswered received m s (Outcome.responds none) e req h =
      absurd (handle-is_request b m s req h)
  finish-IsAnswered received m s (Outcome.responds (some r)) e req h =
      ack_msg_send-Answers p laws b.codec r wired
        (subst (IsReplyOutcome p laws b results) h
          (handle-IsReply p laws b results m s (from_bytes-IsMessage p laws received m e).0))
        (handle_response b m r s h)
  finish-IsAnswered received m s (Outcome.boots r entry) e req h =
      ack_msg_send-Answers p laws b.codec r wired
        (subst (IsReplyOutcome p laws b results) h
          (handle-IsReply p laws b results m s (from_bytes-IsMessage p laws received m e).0))
        (handle-boots_response b m r entry s h)
  finish-IsAnswered received m s Outcome.resets e req h =
      subst (λ m'. (wire_codec p).from_bytes received ≡ some m') (handle_resets b m s h) e

  handle_read-IsAnswered :
      (received : Bytes) (s : Loader b) (parsed : Option HostProtocolMessage)
      → (wire_codec p).from_bytes received ≡ parsed
      → ((m : HostProtocolMessage)
          → (wire_codec p).from_bytes received ≡ some m
          → is_request m ≡ true)
      → IsAnswered p b received (finish b (handle_read b parsed s).1)
  unfolding handle_read finish is_request
  handle_read-IsAnswered received s none e req =
      ack_msg_send-Answers p laws b.codec (HostProtocolMessage.postcard_error PostcardError.deser)
        wired (tt, tt) refl
  handle_read-IsAnswered received s (some m) e req =
      finish-IsAnswered received m s (handle b m s).1 e (req m e) refl

  -- On postcard's wire format, with hashes, MACs, checksums and texts of their types: whatever the
  -- state, bytes that are no message are answered, and so is every request, but for a reset. A
  -- frame goes out in which the other side reads a response. No answer is dropped because it does
  -- not fit the frame, not even the one that is sent before the application is entered.
  pub round-IsAnswered :
      (x : ℕ) (buf : Bytes) (s : Loader b)
      → ((m : HostProtocolMessage)
          → (wire_codec p).from_bytes (x ∷ buf) ≡ some m
          → is_request m ≡ true)
      → IsAnswered p b (x ∷ buf) (round b (SpiRead.received (x ∷ buf)) s).1
  unfolding round
  round-IsAnswered x buf s req =
      handle_read-IsAnswered (x ∷ buf) s (b.codec.from_bytes (x ∷ buf))
        (ap (λ c. c.from_bytes (x ∷ buf)) (sym wired)) req
