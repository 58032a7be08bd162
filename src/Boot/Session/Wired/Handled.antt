-- ===== src/Boot/Session/Wired/Handled.antt =====
-- A round of the loop of bootloader/src/main.rs on the bytes of a message, against the handling of
-- the message.
use prime_ble_firmware.Base.{
  ℕ, zero, suc, ◌<◌, ◌≡◌, refl, sym, ap, subst, ◌∙◌, [], ◌∷◌, ◌++◌, Option, none, some, arith, drop,
}
use mathlib.Core.List.{append-nil}
use prime_ble_firmware.Protocol.{Bytes, HostProtocolMessage}
use prime_ble_firmware.Protocol.Frame.{ack_msg_send}
use prime_ble_firmware.Protocol.Wire.{Postcard, PostcardLaws}
use prime_ble_firmware.Protocol.Wire.Messages.{write_message, wire_codec}
use prime_ble_firmware.Protocol.Wire.Validity.{IsMessage}
use prime_ble_firmware.Protocol.Wire.RoundTrip.Messages.{from_bytes-write_message}
use prime_ble_firmware.Protocol.Wire.Delivery.{Delivers, ack_msg_send-Delivers}
use prime_ble_firmware.Boot.Session.{
  Board, Loader, Outcome, SpiRead, Turn, handle, handle_read, finish, round,
}
use prime_ble_firmware.Boot.Session.Wired.{ResultLaws, IsReplyOutcome, handle-IsReply}

-- The message that a handling shows to the other side.
abbrev pub shown : (b : Board) → Outcome b → Option HostProtocolMessage
shown b (Outcome.responds answer) = answer
shown b (Outcome.boots answer entry) = some answer
shown b Outcome.resets = none

abbrev read_frame : Postcard → Option Bytes → Option HostProtocolMessage
read_frame p none = none
read_frame p (some frame) = (wire_codec p).from_bytes (drop 2 frame)

-- The message that the other side reads after a round, behind the length in the frame.
abbrev pub read_turn : (p : Postcard) (b : Board) → Turn b → Option HostProtocolMessage
read_turn p b (Turn.continues frame) = read_frame p frame
read_turn p b (Turn.enters frame entry) = read_frame p frame
read_turn p b Turn.restarts = none

module _ (p : Postcard) (laws : PostcardLaws p) where
  -- An index whose bytes were none could not be told from what follows it.
  variant-nonempty_of : (k j : ℕ) → k < 128 → j < 128 → (k ≡ j → ⊥) → p.variant.write k ≡ [] → ⊥
  variant-nonempty_of k j lt lt' ne e = ground (
    arith,
    laws.variant_laws.read-write k (p.variant.write j),
    laws.variant_laws.read-write j [],
    append-nil (p.variant.write j),
  )

  variant-nonempty : (k : ℕ) → k < 128 → p.variant.write k ≡ [] → ⊥
  variant-nonempty zero lt = variant-nonempty_of 0 1 lt (omega arith) (λ e. omega arith)
  variant-nonempty (suc k) lt = variant-nonempty_of (suc k) 0 lt (omega arith) (λ e. omega arith)

  append-nonempty : (xs ys : Bytes) → (xs ≡ [] → ⊥) → xs ++ ys ≡ [] → ⊥
  append-nonempty [] ys ne e = ne refl
  append-nonempty (x ∷ xs) ys ne e = absurd (cc)

  write_message-nonempty : (m : HostProtocolMessage) → write_message p m ≡ [] → ⊥
  unfolding write_message
  write_message-nonempty (HostProtocolMessage.bluetooth sub) =
      append-nonempty _ _ (variant-nonempty 0 (omega arith))
  write_message-nonempty (HostProtocolMessage.bootloader sub) =
      append-nonempty _ _ (variant-nonempty 1 (omega arith))
  write_message-nonempty HostProtocolMessage.reset = variant-nonempty 2 (omega arith)
  write_message-nonempty HostProtocolMessage.get_state = variant-nonempty 3 (omega arith)
  write_message-nonempty (HostProtocolMessage.ack_state s) =
      append-nonempty _ _ (variant-nonempty 4 (omega arith))
  write_message-nonempty (HostProtocolMessage.challenge_request nonce) =
      append-nonempty _ _ (variant-nonempty 5 (omega arith))
  write_message-nonempty (HostProtocolMessage.challenge_result result) =
      append-nonempty _ _ (variant-nonempty 6 (omega arith))
  write_message-nonempty (HostProtocolMessage.postcard_error e) =
      append-nonempty _ _ (variant-nonempty 7 (omega arith))
  write_message-nonempty (HostProtocolMessage.inappropriate_message s) =
      append-nonempty _ _ (variant-nonempty 8 (omega arith))

module _ (p : Postcard) (laws : PostcardLaws p) (b : Board) (wired : b.codec ≡ wire_codec p)
    (results : ResultLaws p b.cosign b.digests) where
  read_frame-ack_msg_send :
      (r : HostProtocolMessage)
      → IsReplyOutcome p laws b results (Outcome.responds (some r))
      → read_frame p (ack_msg_send b.codec r) ≡ some r
  read_frame-ack_msg_send r h =
      let d : Delivers p (ack_msg_send (wire_codec p) r) r =
        ack_msg_send-Delivers p laws r h.0 h.1 in
      subst (λ c. read_frame p (ack_msg_send c r) ≡ some r) (sym wired)
        (ap (read_frame p) d.is_sent ∙ d.is_read)

  read_turn-finish :
      (o : Outcome b) → IsReplyOutcome p laws b results o → read_turn p b (finish b o) ≡ shown b o
  unfolding finish
  read_turn-finish (Outcome.responds none) h = refl
  read_turn-finish (Outcome.responds (some r)) h = read_frame-ack_msg_send r h
  read_turn-finish (Outcome.boots r entry) h = read_frame-ack_msg_send r h
  read_turn-finish Outcome.resets h = refl

  round-handle_read :
      (bs : Bytes) (s : Loader b)
      → (bs ≡ [] → ⊥)
      → round b (SpiRead.received bs) s
        ≡ (let r = handle_read b (b.codec.from_bytes bs) s in (r.0, finish b r.1))
  unfolding round
  round-handle_read [] s ne = absurd (ne refl)
  round-handle_read (x ∷ bs) s ne = refl

  -- On postcard's wire format, with hashes, MACs, checksums and texts of their types: a round on the
  -- bytes of a message does to the loader what the handling of the message does, and the other side
  -- reads, from the frame that is sent, the message that the handling answers with, or no message
  -- if it answers with none.
  pub round-write_message :
      (m : HostProtocolMessage) (s : Loader b)
      → IsMessage p m
      → let r = round b (SpiRead.received (write_message p m)) s in
        (r.0 ≡ (handle b m s).0) × (read_turn p b r.1 ≡ shown b (handle b m s).1)
  unfolding handle_read
  round-write_message m s h =
      let parsed : b.codec.from_bytes (write_message p m) ≡ some m =
        ap (λ c. c.from_bytes (write_message p m)) wired
        ∙ ap (wire_codec p).from_bytes (sym (append-nil (write_message p m)))
        ∙ from_bytes-write_message p laws m [] h in
      let run : round b (SpiRead.received (write_message p m)) s
          ≡ ((handle b m s).0, finish b (handle b m s).1) =
        round-handle_read (write_message p m) s (write_message-nonempty p laws m)
        ∙ ap (λ parsed. let r = handle_read b parsed s in (r.0, finish b r.1)) parsed in
      (
        ap (λ r. r.0) run,
        ap (λ r. read_turn p b r.1) run
            ∙ read_turn-finish (handle b m s).1 (handle-IsReply p laws b results m s h),
      )
