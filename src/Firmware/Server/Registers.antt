-- ===== src/Firmware/Server/Registers.antt =====
-- Nothing of firmware/src writes the registers of the UICR.
use prime_ble_firmware.Base.{◌≡◌, refl, ap, ◌∙◌, true, Option, none, some, arith}
use prime_ble_firmware.Protocol.{Bytes, HostProtocolMessage}
use prime_ble_firmware.Firmware.Kernel.{Kernel, World, CommsContext}
use prime_ble_firmware.Firmware.Comms.{
  respond, host_protocol_handler, bluetooth_handler, comms_round,
}
use prime_ble_firmware.Firmware.Nus.{NusEvent, nus_handle}
use prime_ble_firmware.Firmware.Server
use prime_ble_firmware.Firmware.Server.{Task, connect, served, stop, advertise}

module _ (k : Kernel) (context : CommsContext) where
  host_protocol_handler_regs :
      (m : HostProtocolMessage) (w : World k)
      → (host_protocol_handler k m context w).0.regs ≡ w.regs
  unfolding host_protocol_handler bluetooth_handler
  host_protocol_handler_regs m w = ground arith

  respond_regs :
      (o : Option HostProtocolMessage) (w : World k) → (respond k o context w).0.regs ≡ w.regs
  unfolding respond
  respond_regs none w = refl
  respond_regs (some m) w = host_protocol_handler_regs m w

  -- Nothing that the firmware does with a read of its SPI changes the registers.
  pub comms_round_regs :
      (read : Option Bytes) (w : World k) → (comms_round k read context w).0.regs ≡ w.regs
  unfolding comms_round
  comms_round_regs none w = refl
  comms_round_regs (some buf) w = respond_regs (k.codec.from_bytes buf) w

  nus_handle_regs : (e : NusEvent) (w : World k) → (nus_handle k true e w).regs ≡ w.regs
  unfolding nus_handle
  nus_handle_regs e w = ground arith

  -- No step of the firmware's tasks changes the registers.
  pub Step-regs : {t u : Task k} → Server.Step k context t u → u.world.regs ≡ t.world.regs
  unfolding advertise connect served stop
  Step-regs (Server.Step.enabled slot p h e) = ap (λ v. v.world.regs) e
  Step-regs (Server.Step.still_disabled slot p h e) = ap (λ v. v.world.regs) e
  Step-regs (Server.Step.changed a slot p h e) = ap (λ v. v.world.regs) e
  Step-regs (Server.Step.advertise_failed a p h e) = ap (λ v. v.world.regs) e
  Step-regs (Server.Step.connected a c p h e) = ap (λ v. v.world.regs) e
  Step-regs (Server.Step.disconnected c p e) = ap (λ v. v.world.regs) e
  Step-regs (Server.Step.stopped slot p live h e) = ap (λ v. v.world.regs) e
  Step-regs (Server.Step.still_enabled slot p live h e) = ap (λ v. v.world.regs) e
  Step-regs {t} (Server.Step.message m live e) =
      ap (λ v. v.world.regs) e ∙ host_protocol_handler_regs m t.world
  Step-regs {t} (Server.Step.written c event p e) =
      ap (λ v. v.world.regs) e ∙ nus_handle_regs event t.world
