-- ===== src/Firmware/Server/Advertising.antt =====
-- What firmware/src/server.rs advertises, against what the MPU asked for.
use prime_ble_firmware.Base.{◌≡◌, sym, subst, ◌⊎◌, inl, inr, none, some, arith}
use prime_ble_firmware.Protocol.{Bluetooth, TxPower, HostProtocolMessage, i8_from_tx_power}
use prime_ble_firmware.Firmware.Kernel.{Kernel, World, CommsContext, SignalLaws, RadioPower}
use prime_ble_firmware.Firmware.Comms.{host_protocol_handler}
use prime_ble_firmware.Firmware.Server.{
  radio_power, Advertisement, advertisement, Phase, Task, Step, Steps, advertise, connect, served,
  stop,
}

-- The power that a request names, on the radio's side.
abbrev pub asked_power : TxPower → RadioPower
asked_power TxPower.negative40_dbm = RadioPower.minus40_dbm
asked_power TxPower.negative20_dbm = RadioPower.minus20_dbm
asked_power TxPower.negative16_dbm = RadioPower.minus16_dbm
asked_power TxPower.negative12_dbm = RadioPower.minus12_dbm
asked_power TxPower.negative8_dbm = RadioPower.minus8_dbm
asked_power TxPower.negative4_dbm = RadioPower.minus4_dbm
asked_power TxPower.zero_dbm = RadioPower.zero_dbm
asked_power TxPower.positive3_dbm = RadioPower.plus3_dbm
asked_power TxPower.positive4_dbm = RadioPower.plus4_dbm

-- Every power that the MPU can ask for survives the way through a signed byte.
pub radio_power-i8_from_tx_power : (p : TxPower) → radio_power (i8_from_tx_power p) ≡ asked_power p
unfolding radio_power i8_from_tx_power
radio_power-i8_from_tx_power p = ground arith

module _ (k : Kernel) (context : CommsContext) where
  -- A change is waiting to be taken up.
  abbrev pub IsChanged : World k → Type 0
  IsChanged w =
      (slot : k.adv_changed.Slot) × (k.adv_changed.poll w.bt_adv_changed ≡ some (tt, slot))

  -- What goes out is what the settings say, or a restart with new settings is due.
  abbrev pub IsCurrent : Task k → Type 0
  IsCurrent t =
      (a : Advertisement k)
      → t.phase ≡ Phase.advertising a
      → IsChanged t.world ⊎ (a ≡ advertisement k t.world)

  module _ (laws : SignalLaws k.adv_changed) where
    message-IsChanged :
        (m : HostProtocolMessage) (w : World k) (a : Advertisement k)
        → IsChanged w ⊎ (a ≡ advertisement k w)
        → let w' = (host_protocol_handler k m context w).0 in
          IsChanged w' ⊎ (a ≡ advertisement k w')
    unfolding host_protocol_handler advertisement
    message-IsChanged (HostProtocolMessage.bluetooth (Bluetooth.disable_channels chan)) w a h =
        let signalled = laws.poll-signal w.bt_adv_changed tt in ground arith
    message-IsChanged (HostProtocolMessage.bluetooth (Bluetooth.set_tx_power power)) w a h =
        inl (laws.poll-signal w.bt_adv_changed tt)
    message-IsChanged (HostProtocolMessage.bluetooth (Bluetooth.set_device_name name)) w a h =
        inl (laws.poll-signal w.bt_adv_changed tt)
    message-IsChanged (HostProtocolMessage.bluetooth Bluetooth.disable) w a h = ground arith
    message-IsChanged (HostProtocolMessage.bluetooth Bluetooth.disconnect) w a h = ground arith
    message-IsChanged (HostProtocolMessage.bluetooth Bluetooth.get_received_data) w a h =
        ground arith
    message-IsChanged (HostProtocolMessage.bluetooth (Bluetooth.send_data packet)) w a h =
        ground arith
    message-IsChanged _ w a h = h

    advertise-IsCurrent : (w : World k) → IsCurrent (advertise k w)
    unfolding advertise advertisement
    advertise-IsCurrent w a p = inr (ground arith)

    Step-IsCurrent : {t u : Task k} → Step k context t u → IsCurrent t → IsCurrent u
    unfolding connect stop served advertisement
    Step-IsCurrent {t} (Step.enabled slot p q e) h =
        subst IsCurrent (sym e) (advertise-IsCurrent (record t.world { bt_enable = slot }))
    Step-IsCurrent {t} (Step.changed a slot p q e) h =
        subst IsCurrent (sym e) (advertise-IsCurrent (record t.world { bt_adv_changed = slot }))
    Step-IsCurrent {t} (Step.disconnected c p e) h =
        subst IsCurrent (sym e) (advertise-IsCurrent (record t.world { connection = none }))
    Step-IsCurrent (Step.still_disabled slot p q e) h =
        subst IsCurrent (sym e) (λ a r. absurd (ground arith))
    Step-IsCurrent (Step.advertise_failed a p q e) h = subst IsCurrent (sym e) (λ a' r. absurd (cc))
    Step-IsCurrent (Step.connected a c p q e) h = subst IsCurrent (sym e) (λ a' r. absurd (cc))
    Step-IsCurrent (Step.stopped slot p live q e) h = subst IsCurrent (sym e) (λ a r. absurd (cc))
    Step-IsCurrent (Step.still_enabled slot p live q e) h = subst IsCurrent (sym e) h
    Step-IsCurrent {t} (Step.message m live e) h =
        subst IsCurrent (sym e) (λ a r. message-IsChanged m t.world a (h a r))
    Step-IsCurrent (Step.written c ev p e) h =
        subst IsCurrent (sym e) (λ a r. absurd (ground arith))

    Steps-IsCurrent : {t u : Task k} → IsCurrent t → Steps k context t u → IsCurrent u
    Steps-IsCurrent h Steps.here = h
    Steps-IsCurrent h (Steps.next steps st) = Step-IsCurrent st (Steps-IsCurrent h steps)

    -- Whatever the MPU, the radio and a peer do from the start on: while the controller
    -- advertises, either the name, the channels and the power that it advertises with are those
    -- last set, or a restart of the advertisement is due.
    pub Steps-advertising :
        (w : World k) (t : Task k) (a : Advertisement k)
        → Steps k context (record { world = w; phase = Phase.waiting }) t
        → t.phase ≡ Phase.advertising a
        → IsChanged t.world ⊎ (a ≡ advertisement k t.world)
    Steps-advertising w t a steps p =
        Steps-IsCurrent {t = record { world = w; phase = Phase.waiting }} (λ b r. absurd (cc)) steps
          a p
