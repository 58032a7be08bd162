-- ===== src/Protocol/Compatibility.antt =====
-- The compatibility test of host-protocol/src/lib.rs: the bytes of each message start with those
-- that are wanted, which never change.
pub mod Base
pub mod Bootloader
pub mod Bluetooth
use prime_ble_firmware.Base.{
  ℕ, ◌+◌, ◌≤◌, ◌≡◌, refl, sym, subst, ◌∙◌, Bool, true, false, ◌&&◌, List, [], ◌∷◌, ◌++◌, Option,
  none, some, ◌==◌, all, arith, length, leb, inl, inr, ap, if◌then◌else◌,
}
use mathlib.Core.List.{Memᴰ}
use mathlib.Core.List.Memᴰ as Memᴰ
use prime_ble_firmware.Protocol.{Bytes, HostProtocolMessage}
use prime_ble_firmware.Protocol.Wire.{Postcard, PostcardLaws}
use prime_ble_firmware.Protocol.Wire.Messages.{write_message, wire_codec}
use prime_ble_firmware.Protocol.Wire.Validity.{IsMessage}
use prime_ble_firmware.Protocol.Wire.RoundTrip.Messages.{from_bytes-write_message}

unfoldable pub starts_with : Bytes → Bytes → Bool
starts_with bs [] = true
starts_with [] (w ∷ wanted) = false
starts_with (b ∷ bs) (w ∷ wanted) = b == w && starts_with bs wanted

module _ (p : Postcard) where
  -- In a buffer of 512 bytes; `None` is the panic of `unwrap`.
  unfoldable pub encoded_data : HostProtocolMessage → Option Bytes
  encoded_data msg = (wire_codec p).to_slice msg 512

  encoded_starts_with : Bytes → Option Bytes → Bool
  encoded_starts_with wanted none = false
  encoded_starts_with wanted (some encoded) = starts_with encoded wanted

  unfoldable pub check_message : HostProtocolMessage × Bytes → Bool
  unfolding encoded_starts_with encoded_data starts_with
  check_message (msg, wanted) = encoded_starts_with wanted (encoded_data msg)

  -- Whether no assertion of the test fails.
  unfoldable pub check_messages : List (HostProtocolMessage × Bytes) → Bool
  unfolding check_message
  check_messages messages = all check_message messages

starts_with-eq :
    (bs wanted : Bytes) → starts_with bs wanted ≡ true → length bs ≤ length wanted → bs ≡ wanted
unfolding starts_with
starts_with-eq [] [] h le = refl
starts_with-eq (b ∷ bs) [] h le = absurd (omega arith)
starts_with-eq [] (w ∷ wanted) h le = absurd (cc)
starts_with-eq (b ∷ bs) (w ∷ wanted) h le = ground (arith, starts_with-eq bs wanted)

check_messages-Mem :
    (p : Postcard) (messages : List (HostProtocolMessage × Bytes))
    (entry : HostProtocolMessage × Bytes)
    → check_messages p messages ≡ true
    → Memᴰ entry messages
    → check_message p entry ≡ true
unfolding check_messages
check_messages-Mem p [] entry h i = elim i [ ]
check_messages-Mem p (m ∷ messages) entry h (Memᴰ.head e) = ground arith
check_messages-Mem p (m ∷ messages) entry h (Memᴰ.tail i) =
    ground (arith, check_messages-Mem p messages entry)

check_message-eq :
    (p : Postcard) (msg : HostProtocolMessage) (wanted : Bytes)
    → check_message p (msg, wanted) ≡ true
    → length (write_message p msg) ≤ length wanted
    → write_message p msg ≡ wanted
unfolding check_message encoded_data
check_message-eq p msg wanted h le = ground (arith, starts_with-eq (write_message p msg) wanted)

-- Two versions of postcard for which the test passes understand each other in every message of its
-- table that its type can hold and whose bytes are wanted in full: what the one writes of the
-- message is what is wanted, and the other reads the message from it, whatever bytes follow.
check_messages-from_bytes :
    (p p' : Postcard) (laws' : PostcardLaws p') (messages : List (HostProtocolMessage × Bytes))
    (msg : HostProtocolMessage) (wanted trailing : Bytes)
    → check_messages p messages ≡ true
    → check_messages p' messages ≡ true
    → Memᴰ (msg, wanted) messages
    → length (write_message p msg) ≤ length wanted
    → length (write_message p' msg) ≤ length wanted
    → IsMessage p' msg
    → (write_message p msg ≡ wanted)
      × ((wire_codec p').from_bytes (write_message p msg ++ trailing) ≡ some msg)
check_messages-from_bytes p p' laws' messages msg wanted trailing h h' i le le' valid =
    let e = check_message-eq p msg wanted (check_messages-Mem p messages (msg, wanted) h i) le in
    let e' =
      check_message-eq p' msg wanted (check_messages-Mem p' messages (msg, wanted) h' i) le' in
    (
      e,
      subst (λ bs. (wire_codec p').from_bytes (bs ++ trailing) ≡ some msg) (e' ∙ sym e)
          (from_bytes-write_message p' laws' msg trailing valid),
    )
