-- ===== src/Protocol/Wire/Decoded/Messages.antt =====
-- What a decoded message of host-protocol/src/lib.rs is known to be.
use prime_ble_firmware.Base.{ℕ, ◌≡◌, some, arith, length, ◌==◌, ◌≤◌, Option-cases, inl, inr}
use prime_ble_firmware.Protocol.{Bytes, Bootloader, HostProtocolMessage}
use prime_ble_firmware.Protocol.Wire.{Postcard, PostcardLaws, IsU8}
use prime_ble_firmware.Protocol.Wire.Parts.{read_array-IsArray}
use prime_ble_firmware.Protocol.Wire.Messages.{read_message, read_message_at, wire_codec}
use prime_ble_firmware.Protocol.Wire.Validity.{IsBootloader, IsMessage}
use prime_ble_firmware.Protocol.Wire.Decoded.{
  Gives, Gives-none, Gives-some, Gives-if, Gives-made_of, Gives-bind,
}
use prime_ble_firmware.Platform.{CodecLaws}
use prime_ble_firmware.Protocol.Wire.Decoded.Bluetooth.{read_bluetooth-IsBluetooth}
use prime_ble_firmware.Protocol.Wire.Decoded.Bootloader.{IsBlockIn, read_bootloader-IsBootloader}

-- A block of `n` bytes at most.
abbrev pub IsMessageIn : ℕ → HostProtocolMessage → Type 0
IsMessageIn n (HostProtocolMessage.bootloader sub) = IsBlockIn n sub
IsMessageIn n _ = Unit {0}

IsBlockIn-mono : (n k : ℕ) (m : Bootloader) → n ≤ k → IsBlockIn n m → IsBlockIn k m
IsBlockIn-mono n k (Bootloader.write_firmware_block block_idx block_data) le h = omega arith
IsBlockIn-mono n k _ le h = tt

module _ (p : Postcard) (laws : PostcardLaws p) where
  bootloader_IsMessage :
      (bs more : Bytes) (n : ℕ)
      → p.variant.read bs ≡ some (n, more)
      → (m : Bootloader) → IsBootloader p m × IsBlockIn (length more) m
      → IsBootloader p m × IsBlockIn (length bs) m
  bootloader_IsMessage bs more n e m h =
      (h.0, IsBlockIn-mono (length more) (length bs) m (laws.variant_laws.read-le bs n more e) h.1)

  read_message-IsMessage :
      (bs : Bytes) → Gives (λ m. IsMessage p m × IsMessageIn (length bs) m) (read_message p bs)
  unfolding read_message read_message_at
  read_message-IsMessage bs = Gives-bind (p.variant.read bs) _ (λ n more e.
      (Gives-if (n == 0)
        (Gives-made_of _
          (λ a rest e1. ((read_bluetooth-IsBluetooth p laws more).gives a rest e1, tt)))
        (Gives-if (n == 1)
          (Gives-made_of _ (λ a rest e1.
            bootloader_IsMessage bs more n e a
              ((read_bootloader-IsBootloader p laws more).gives a rest e1)))
          (Gives-if (n == 2) (Gives-some (tt, tt)) (
            Gives-if (n == 3) (Gives-some (tt, tt)) (
              Gives-if (n == 4) (Gives-made_of _ (λ a rest e1. (tt, tt))) (
                Gives-if (n == 5)
                  (Gives-made_of _ (λ a rest e1. (laws.u64_laws.read-IsValue more a rest e1, tt)))
                  (Gives-if (n == 6)
                    (Gives-made_of _ (λ xs rest e1.
                      ((read_array-IsArray p.u8 IsU8 1 laws.u8_laws 32 more xs rest e1).0, tt)))
                    (Gives-if (n == 7) (Gives-made_of _ (λ a rest e1. (tt, tt))) (
                      Gives-if (n == 8) (Gives-made_of _ (λ a rest e1. (tt, tt)))
                        Gives-none))))))))))

  from_bytes-read_message :
      (bs : Bytes) (m : HostProtocolMessage)
      → (wire_codec p).from_bytes bs ≡ some m
      → (rest : Bytes) × (read_message p bs ≡ some (m, rest))
  from_bytes-read_message bs m h = elim (Option-cases (read_message p bs)) [
    | inl e ↦ absurd (ground arith)
    | inr ((m', rest), e) ↦ (rest, ground arith)
  ]

  -- Whatever bytes come in, the message that is made of them is one that its type can hold, and a
  -- block of firmware in it is no longer than those bytes.
  pub from_bytes-IsMessage :
      (bs : Bytes) (m : HostProtocolMessage)
      → (wire_codec p).from_bytes bs ≡ some m
      → IsMessage p m × IsMessageIn (length bs) m
  from_bytes-IsMessage bs m h =
      let r = from_bytes-read_message bs m h in (read_message-IsMessage bs).gives m r.0 r.1

-- postcard's `to_slice` stays in its buffer.
pub wire_codec_laws : (p : Postcard) → CodecLaws (wire_codec p)
wire_codec_laws p = record { length-to_slice = λ m n bs e. ground arith }
