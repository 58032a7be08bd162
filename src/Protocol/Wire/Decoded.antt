-- ===== src/Protocol/Wire/Decoded.antt =====
-- What a decoded part of a message of host-protocol/src/lib.rs is known to be.
pub mod Bluetooth
pub mod Bootloader
pub mod Messages
use prime_ble_firmware.Base.{
  ℕ, zero, suc, ◌+◌, ◌≤◌, ◌<◌, ◌≡◌, refl, true, false, Bool, if◌then◌else◌, Option, none, some, inl,
  inr, arith, length, leb, Option-cases, ◌==◌,
}
use prime_ble_firmware.Consts.{u32_mod, app_mtu, max_device_name_len}
use prime_ble_firmware.Protocol.{Bytes, ConnectionStatus, BluetoothStatus}
use prime_ble_firmware.Protocol.Wire.{Postcard, PostcardLaws}
use prime_ble_firmware.Protocol.Wire.Parts.{
  ◌>>=◌, made_of, read_bytes, read_vec, read_str, read_string, read_bytes-le,
}
use prime_ble_firmware.Protocol.Wire.Bluetooth.{
  read_connection_status_at, read_connection_status, read_bluetooth_status,
}
use prime_ble_firmware.Protocol.Wire.Validity.{IsStr, IsConnectionStatus}

-- Whatever a reader gives satisfies P.
pub record Gives {A : Type 0} (P : A → Type 0) (o : Option (A × Bytes)) : Type 0 where
  pub gives : (a : A) (rest : Bytes) → o ≡ some (a, rest) → P a

module _ {A : Type 0} {P : A → Type 0} where
  pub Gives-none : Gives P none
  Gives-none = record { gives = λ a rest e. absurd (cc) }

  pub Gives-some : {a : A} {bs : Bytes} → P a → Gives P (some (a, bs))
  Gives-some h = record { gives = λ b rest e. ground arith }

  -- One of the indices of a variant.
  pub Gives-if :
      (c : Bool) {x y : Option (A × Bytes)} → Gives P x → Gives P y → Gives P (if c then x else y)
  Gives-if true gx gy = gx
  Gives-if false gx gy = gy

  pub Gives-made_of :
      {B : Type 0} (c : B → A) {o : Option (B × Bytes)}
      → ((b : B) (rest : Bytes) → o ≡ some (b, rest) → P (c b))
      → Gives P (made_of c o)
  Gives-made_of c {o = none} h = record { gives = λ a rest e. absurd (cc) }
  Gives-made_of c {o = some (b, bs)} h = record { gives = λ a rest e. ground (arith, h b bs refl) }

  pub Gives-bind :
      {B : Type 0} (o : Option (B × Bytes)) (next : B × Bytes → Option (A × Bytes))
      → ((b : B) (more : Bytes) → o ≡ some (b, more) → Gives P (next (b, more)))
      → Gives P (o >>= next)
  Gives-bind none next h = record { gives = λ a rest e. absurd (cc) }
  Gives-bind (some (b, more)) next h = h b more refl

module _ (p : Postcard) (laws : PostcardLaws p) where
  pub read_vec-le :
      (cap : ℕ) (bs xs rest : Bytes) → read_vec p cap bs ≡ some (xs, rest) → length xs ≤ cap
  unfolding read_vec
  read_vec-le cap bs xs rest h = elim (Option-cases (read_bytes p bs)) [
    | inl e ↦ ground arith
    | inr ((ys, more), e) ↦ ground arith
  ]

  pub read_str-IsStr : (bs xs rest : Bytes) → read_str p bs ≡ some (xs, rest) → IsStr p xs
  unfolding read_str
  read_str-IsStr bs xs rest h = elim (Option-cases (read_bytes p bs)) [
    | inl e ↦ ground arith
    | inr ((ys, more), e) ↦ ground (arith, read_bytes-le p laws bs ys more e)
  ]

  pub read_string-IsStr :
      (cap : ℕ) (bs xs rest : Bytes)
      → read_string p cap bs ≡ some (xs, rest)
      → IsStr p xs × (length xs ≤ cap)
  unfolding read_string
  read_string-IsStr cap bs xs rest h = elim (Option-cases (read_str p bs)) [
    | inl e ↦ ground arith
    | inr ((ys, more), e) ↦ ground (arith, read_str-IsStr bs ys more e)
  ]

  read_connection_status-IsConnectionStatus :
      (bs : Bytes) → Gives (IsConnectionStatus p) (read_connection_status p bs)
  unfolding read_connection_status read_connection_status_at
  read_connection_status-IsConnectionStatus bs = Gives-bind (p.variant.read bs) _ (λ n more e.
      Gives-if (n == 0) (Gives-some tt) (
        Gives-if (n == 1) (Gives-some tt)
          (Gives-if (n == 2) (Gives-made_of _ (laws.i8_laws.read-IsValue more)) Gives-none)))

  pub read_bluetooth_status-IsConnectionStatus :
      (bs : Bytes) → Gives (λ s. IsConnectionStatus p s.connection) (read_bluetooth_status p bs)
  unfolding read_bluetooth_status
  read_bluetooth_status-IsConnectionStatus bs =
      Gives-bind (read_connection_status p bs) _ (λ connection more e.
        Gives-bind (p.bool.read more) _ (λ queue_overflow more' e'.
          Gives-some ((read_connection_status-IsConnectionStatus bs).gives connection more e)))
