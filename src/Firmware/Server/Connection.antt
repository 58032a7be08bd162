-- ===== src/Firmware/Server/Connection.antt =====
-- The static `CONNECTION`, which firmware/src/server.rs writes and firmware/src/comms.rs reads.
use prime_ble_firmware.Base.{◌≡◌, refl, sym, subst, ◌∙◌, Bool, true, false, some, arith}
use prime_ble_firmware.Protocol.{Bluetooth, ConnectionStatus, HostProtocolMessage}
use prime_ble_firmware.Firmware.Kernel.{Kernel, World, CommsContext, SignalLaws}
use prime_ble_firmware.Firmware.Comms.{Answer, host_protocol_handler, rssi_or_min}
use prime_ble_firmware.Firmware.Nus.{NusEvent, nus_handle}
use prime_ble_firmware.Firmware.Server.{Phase, Task, Step, Steps, advertise, connect, served, stop}

module _ (k : Kernel) (context : CommsContext) where
  abbrev pub status_request : HostProtocolMessage
  status_request = HostProtocolMessage.bluetooth Bluetooth.get_status

  -- What the MPU is told about the connection.
  abbrev pub reported : ConnectionStatus → Bool → Answer
  reported connection overflow = Answer.answers (
      HostProtocolMessage.bluetooth
        (Bluetooth.status (record { connection = connection; queue_overflow = overflow })))

  -- A connection that is served is the one in the static.
  abbrev pub IsHeld : Task k → Type 0
  IsHeld t = (c : k.radio.Connection) → t.phase ≡ Phase.serving c → t.world.connection ≡ some c

  message-connection :
      (m : HostProtocolMessage) (w : World k)
      → (host_protocol_handler k m context w).0.connection ≡ w.connection
  unfolding host_protocol_handler
  message-connection m w = ground arith

  Step-IsHeld : {t u : Task k} → Step k context t u → IsHeld t → IsHeld u
  unfolding advertise connect served stop nus_handle
  Step-IsHeld (Step.enabled slot p q e) h = subst IsHeld (sym e) (λ c r. absurd (cc))
  Step-IsHeld (Step.changed a slot p q e) h = subst IsHeld (sym e) (λ c r. absurd (cc))
  Step-IsHeld (Step.disconnected c p e) h = subst IsHeld (sym e) (λ c' r. absurd (cc))
  Step-IsHeld (Step.still_disabled slot p q e) h = subst IsHeld (sym e) h
  Step-IsHeld (Step.advertise_failed a p q e) h = subst IsHeld (sym e) (λ c r. absurd (cc))
  Step-IsHeld (Step.connected a c p q e) h = subst IsHeld (sym e) (λ c' r. ground arith)
  Step-IsHeld (Step.stopped slot p live q e) h = subst IsHeld (sym e) (λ c r. absurd (cc))
  Step-IsHeld (Step.still_enabled slot p live q e) h = subst IsHeld (sym e) h
  Step-IsHeld {t} (Step.message m live e) h =
      subst IsHeld (sym e) (λ c r. message-connection m t.world ∙ h c r)
  Step-IsHeld {t} (Step.written c ev p e) h =
      subst IsHeld (sym e) (λ c' r. written-connection ev t.world ∙ h c' r)
    where
      written-connection :
          (ev : NusEvent) (w : World k) → (nus_handle k true ev w).connection ≡ w.connection
      written-connection (NusEvent.tx_cccd_write n) w = refl
      written-connection (NusEvent.rx_write packet) w = ground arith

  Steps-IsHeld : {t u : Task k} → IsHeld t → Steps k context t u → IsHeld u
  Steps-IsHeld h Steps.here = h
  Steps-IsHeld h (Steps.next steps st) = Step-IsHeld st (Steps-IsHeld h steps)

  -- From the start on, whenever a connection is served, a status request reports it as connected,
  -- with its signal strength or, if that cannot be read, the least one.
  pub Steps-status :
      (w : World k) (t : Task k) (c : k.radio.Connection)
      → Steps k context (record { world = w; phase = Phase.waiting }) t
      → t.phase ≡ Phase.serving c
      → (host_protocol_handler k status_request context t.world).1
        ≡ reported
            (ConnectionStatus.connected (rssi_or_min (k.radio.rssi t.world.air c)))
            t.world.bt_data_rx_overflow
  unfolding host_protocol_handler
  Steps-status w t c steps p =
      let held =
        Steps-IsHeld {t = record { world = w; phase = Phase.waiting }} (λ b r. absurd (cc)) steps c
          p in
      rw held refl

  -- When `Disable` is handled while a connection is served and held in the static, the task can be
  -- stopped where it serves, and a status request then still reports the connection, although the
  -- radio counts as disabled.
  pub disable_status :
      (laws : SignalLaws k.enable) (t : Task k) (c : k.radio.Connection)
      → t.phase ≡ Phase.serving c
      → t.world.connection ≡ some c
      → let w =
          (host_protocol_handler k
            (HostProtocolMessage.bluetooth Bluetooth.disable)
            context
            t.world).0 in
        (slot : k.enable.Slot) × Step k context (record t { world = w }) (stop k slot w)
        × ((host_protocol_handler k status_request context (stop k slot w).world).1
            ≡ reported
                (ConnectionStatus.connected (rssi_or_min (k.radio.rssi w.air c)))
                t.world.bt_data_rx_overflow)
        × ((stop k slot w).world.bt_state_copy ≡ false)
  unfolding host_protocol_handler stop
  disable_status laws t c p held =
      let (slot, taken) = laws.poll-signal t.world.bt_enable false in
      (slot, Step.stopped slot (λ q. cc) (λ q. cc) taken refl, ground arith, ground arith)
