-- ===== src/HostBle.antt =====
-- host-ble/src/main.rs: the test program of a desktop, which looks for the controller by radio,
-- writes packets to it and reads from it. btleplug and the radio are parameters.
pub mod Program
pub mod Sends
pub mod Delivery
use prime_ble_firmware.Base.{
  ℕ, Bool, true, false, ◌||◌, List, [], ◌∷◌, ◌++◌, Option, none, some, ◌==◌, if◌then◌else◌,
  replicate,
}
use prime_ble_firmware.Consts.{app_mtu, nus_uuid, short_name}
use prime_ble_firmware.Protocol.{Bytes}
use prime_ble_firmware.Protocol.Compatibility.{starts_with}

abbrev pub write_characteristic_uuid : ℕ
write_characteristic_uuid = 0x6E400002B5A3F393E0A9E50E24DCCA9E

abbrev pub read_characteristic_uuid : ℕ
read_characteristic_uuid = 0x6E400003B5A3F393E0A9E50E24DCCA9E

-- The flags of the command line that an event asks for.
pub record Args : Type 0 where
  pub enumerate : Bool
  pub write_data : Bool
  pub read_data : Bool

-- btleplug. `none`, and `false` beside a state, are errors.
pub record Central : Type 1 where
  pub Net : Type 0
  pub Adapter : Type 0
  pub PeripheralId : Type 0
  pub Peripheral : Type 0
  pub Characteristic : Type 0
  pub uuid : Characteristic → ℕ
  pub adapter_info : Net → Adapter → Option Bytes
  -- `adapter_state()` and `events()`
  pub adapter_state : Net → Adapter → Option (Unit {0})
  pub events : Net → Adapter → Option (Unit {0})
  pub start_scan : Adapter → List ℕ → Net → Net × Option (Unit {0})
  pub peripheral : Net → Adapter → PeripheralId → Option Peripheral
  -- the local name among the properties, if they have one
  pub local_name : Net → Peripheral → Option (Option Bytes)
  pub is_connected : Net → Peripheral → Option Bool
  pub connect : Peripheral → Net → Net × Bool
  pub discover_services : Peripheral → Net → Net × Option (Unit {0})
  pub characteristics : Net → Peripheral → List Characteristic
  pub write : Peripheral → Characteristic → Bytes → Net → Net × Option (Unit {0})
  pub read : Peripheral → Characteristic → Net → Net × Option Bytes
  pub disconnect : Peripheral → Net → Net × Option (Unit {0})

-- How a part of the program ends: it returns, goes on with the next event, returns an error from
-- `main`, or panics.
pub data Ending (A : Type 0) : Type 0 where
  returns : A → Ending A
  continues : Ending A
  fails : Ending A
  panics : Ending A

-- `?` and `expect`.
abbrev pub or_fail : {A : Type 0} → Option A → Ending A
or_fail none = Ending.fails
or_fail (some a) = Ending.returns a

abbrev pub or_panic : {A : Type 0} → Option A → Ending A
or_panic none = Ending.panics
or_panic (some a) = Ending.returns a

-- `str::contains`.
abbrev pub contains : Bytes → Bytes → Bool
contains [] wanted = starts_with [] wanted
contains (b ∷ bs) wanted = starts_with (b ∷ bs) wanted || contains bs wanted

abbrev unwrap_or_default : Option Bytes → Bytes
unwrap_or_default none = []
unwrap_or_default (some name) = name

-- "Prime".
abbrev pub prime : Bytes
prime = b'P' ∷ b'r' ∷ b'i' ∷ b'm' ∷ b'e' ∷ []

abbrev pub data9 : Bytes
data9 = replicate app_mtu 9

abbrev pub data10 : Bytes
data10 = replicate app_mtu 10

module _ (c : Central) where
  -- The state of btleplug, and the packets whose writing returned `Ok`, each with the characteristic
  -- that it was written to, the oldest first.
  pub record World : Type 0 where
    pub net : c.Net
    pub sent : List (c.Characteristic × Bytes)

  abbrev pub Task : Type 0 → Type 0
  Task A = World → World × Ending A

  pub data CentralEvent : Type 0 where
    device_discovered device_connected : c.PeripheralId → CentralEvent
    -- `DeviceDisconnected` and the advertisements of data and of services
    printed : c.PeripheralId → CentralEvent
    other : CentralEvent

module _ {c : Central} where
  abbrev pub pure : {A : Type 0} → A → Task c A
  pure a w = (w, Ending.returns a)

  abbrev pub skip : {A : Type 0} → Task c A
  skip w = (w, Ending.continues)

  abbrev pub continue_with :
      {A B : Type 0} → (A → Task c B) → World c × Ending A → World c × Ending B
  continue_with f (w, Ending.returns a) = f a w
  continue_with f (w, Ending.continues) = (w, Ending.continues)
  continue_with f (w, Ending.fails) = (w, Ending.fails)
  continue_with f (w, Ending.panics) = (w, Ending.panics)

  infixl 5 ◌>>=◌ ◌>>◌
  unfoldable pub ◌>>=◌ : {A B : Type 0} → Task c A → (A → Task c B) → Task c B
  (m >>= f) w = continue_with f (m w)

  abbrev pub ◌>>◌ : {A B : Type 0} → Task c A → Task c B → Task c B
  m >> n = m >>= (λ _. n)

  abbrev pub asks : {A : Type 0} → (c.Net → Ending A) → Task c A
  asks f w = (w, f w.net)

  abbrev pub calls : {A B : Type 0} → (c.Net → c.Net × A) → (A → Ending B) → Task c B
  calls f judge w = let r = f w.net in (record w { net = r.0 }, judge r.1)

  abbrev pub when : Bool → Task c (Unit {0}) → Task c (Unit {0})
  when true m = m
  when false m = pure tt
