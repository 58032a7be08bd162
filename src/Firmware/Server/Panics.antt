-- ===== src/Firmware/Server/Panics.antt =====
-- When `unwrap!(conn, "Advertise failed")` of firmware/src/server.rs panics.
use prime_ble_firmware.Base.{◌≡◌}
use prime_ble_firmware.Protocol.{Bluetooth, HostProtocolMessage}
use prime_ble_firmware.Firmware.Kernel.{Kernel, World, CommsContext, SignalLaws}
use prime_ble_firmware.Firmware.Comms.{host_protocol_handler}
use prime_ble_firmware.Firmware.Server.{Phase, Task, Steps}

module _ (k : Kernel) (context : CommsContext) (signal_laws : SignalLaws k.enable) where
  abbrev request : Bluetooth → HostProtocolMessage
  request m = HostProtocolMessage.bluetooth m

  -- The task from its start can come to a panic.
  abbrev pub CanPanic : World k → Type 0
  CanPanic w =
      (t : Task k) × Steps k context (record { world = w; phase = Phase.waiting }) t
      × (t.phase ≡ Phase.panicked)

  abbrev after : Bluetooth → World k → World k
  after m w = (host_protocol_handler k (request m) context w).0
