-- ===== src/Firmware/Nus/Queue.antt =====
-- The path of the received packets: in by firmware/src/nus.rs, out by the arm `GetReceivedData` of
-- firmware/src/comms.rs, against a bounded first-in first-out queue.
pub mod Fetched
use prime_ble_firmware.Base.{
  ◌≤◌, ◌≡◌, sym, ap, ◌∙◌, ◌⊎◌, inl, inr, Bool, true, false, List, [], ◌∷◌, ◌++◌, some, arith, ltb,
  leb, if◌then◌else◌, length, length-append, Option-cases,
}
use mathlib.Core.List.{append_assoc, append-nil}
use prime_ble_firmware.Consts.{bt_max_num_pkt}
use prime_ble_firmware.Protocol.{Bytes, Bluetooth, HostProtocolMessage}
use prime_ble_firmware.Boot.Secret.{hmac_challenge_response}
use prime_ble_firmware.Firmware.Kernel.{Kernel, World, CommsContext, ChannelLaws, Level}
use prime_ble_firmware.Firmware.Comms.{Answer, host_protocol_handler}
use prime_ble_firmware.Firmware.Nus.{NusEvent, nus_handle}

-- What happens to the queue: a packet of the peer, or a message of the MPU.
pub data Event : Type 0 where
  peer : NusEvent → Event
  mpu : HostProtocolMessage → Event

-- The packet that an answer carries.
abbrev pub delivered : Answer → List Bytes
delivered (Answer.answers (HostProtocolMessage.bluetooth (Bluetooth.received_data packet))) =
    packet ∷ []
delivered _ = []

-- The one message that takes the overflow flag down.
abbrev pub is_get_status : Event → Bool
is_get_status (mpu (HostProtocolMessage.bluetooth Bluetooth.get_status)) = true
is_get_status _ = false

module _ (k : Kernel) (context : CommsContext) where
  abbrev pub pending : World k → List Bytes
  pending w = k.data_rx.items w.bt_data_rx

  -- The new world and what the MPU gets. The pin is free for the service: no task holds its lock
  -- across a wait.
  unfoldable pub event : Event → World k → World k × List Bytes
  event (peer e) w = (nus_handle k true e w, [])
  event (mpu m) w = let r = host_protocol_handler k m context w in (r.0, delivered r.1)

  unfoldable pub run_events : List Event → World k → World k × List Bytes
  run_events [] w = (w, [])
  run_events (e ∷ es) w =
      let one = event e w in let others = run_events es one.0 in (others.0, one.1 ++ others.1)

  -- A packet is taken while fewer than sixteen wait.
  abbrev pub accepted : Event → World k → List Bytes
  accepted (peer (NusEvent.rx_write packet)) w =
      if ltb (length (pending w)) bt_max_num_pkt then packet ∷ [] else []
  accepted _ w = []

  abbrev pub dropped : Event → World k → Bool
  dropped (peer (NusEvent.rx_write packet)) w = leb bt_max_num_pkt (length (pending w))
  dropped _ w = false

  abbrev pub all_accepted : List Event → World k → List Bytes
  all_accepted [] w = []
  all_accepted (e ∷ es) w = accepted e w ++ all_accepted es (event e w).0

  module _ (laws : ChannelLaws k.data_rx) where
    received_flow :
        (w : World k)
        → let r =
            host_protocol_handler k
              (HostProtocolMessage.bluetooth Bluetooth.get_received_data)
              context
              w in
          delivered r.1 ++ pending r.0 ≡ pending w
    unfolding host_protocol_handler
    received_flow w = elim (Option-cases (k.data_rx.try_receive w.bt_data_rx)) [
      | inl e ↦ ground (arith, laws.empty w.bt_data_rx e)
      | inr ((packet, rest), e) ↦ ground (arith, laws.received w.bt_data_rx rest packet e)
    ]

    written_flow :
        (packet : Bytes) (w : World k)
        → pending (nus_handle k true (NusEvent.rx_write packet) w)
          ≡ pending w ++ accepted (peer (NusEvent.rx_write packet)) w
    unfolding nus_handle
    written_flow packet w = elim (Option-cases (k.data_rx.try_send w.bt_data_rx packet)) [
      | inl e ↦ ground (arith, laws.full w.bt_data_rx packet, append-nil (pending w))
      | inr (queue, e) ↦
          ground (arith, laws.sent w.bt_data_rx queue packet e, (laws.full w.bt_data_rx packet).1)
    ]

    event_flow :
        (e : Event) (w : World k)
        → (event e w).1 ++ pending (event e w).0 ≡ pending w ++ accepted e w
    unfolding event host_protocol_handler hmac_challenge_response
    event_flow (peer (NusEvent.rx_write packet)) w = written_flow packet w
    event_flow (peer (NusEvent.tx_cccd_write notifications)) w =
        unfold nus_handle in sym (append-nil (pending w))
    event_flow (mpu (HostProtocolMessage.bluetooth Bluetooth.get_received_data)) w =
        received_flow w ∙ sym (append-nil (pending w))
    event_flow (mpu m) w = ground (arith, append-nil (pending w))

    -- No packet is lost, doubled or reordered on its way: whatever the peer and the MPU do, what
    -- the MPU got, followed by what waits, is what waited at first, followed by what was accepted.
    pub run_events_flow :
        (es : List Event) (w : World k)
        → (run_events es w).1 ++ pending (run_events es w).0 ≡ pending w ++ all_accepted es w
    unfolding run_events
    run_events_flow [] w = sym (append-nil (pending w))
    run_events_flow (e ∷ es) w =
        let one = event e w in
        append_assoc one.1 (run_events es one.0).1 (pending (run_events es one.0).0)
        ∙ ap (◌++◌ one.1) (run_events_flow es one.0)
        ∙ sym (append_assoc one.1 (pending one.0) (all_accepted es one.0))
        ∙ ap (λ xs. xs ++ all_accepted es one.0) (event_flow e w)
        ∙ append_assoc (pending w) (accepted e w) (all_accepted es one.0)

    -- At most sixteen packets wait, the pin has been set up, and it is low while some wait.
    pub record IsSignalled (w : World k) : Type 0 where
      pub bounded : length (pending w) ≤ bt_max_num_pkt
      pub set_up : (level : Level) × (w.irq_out_pin ≡ some level)
      pub signalled : (pending w ≡ []) ⊎ (w.irq_out_pin ≡ some Level.low)

    -- No event breaks it.
    pub event-IsSignalled : (e : Event) (w : World k) → IsSignalled w → IsSignalled (event e w).0
    unfolding event host_protocol_handler
    event-IsSignalled (peer (NusEvent.rx_write packet)) w v = record {
      bounded = ground (
        arith,
        written_flow packet w,
        length-append (pending w) (packet ∷ []),
        append-nil (pending w),
      );
      set_up = unfold nus_handle in (Level.low, ground arith);
      signalled = unfold nus_handle in ground arith;
    }
    event-IsSignalled (peer (NusEvent.tx_cccd_write notifications)) w v = unfold nus_handle in v
    event-IsSignalled (mpu (HostProtocolMessage.bluetooth Bluetooth.get_received_data)) w v =
        elim (Option-cases (k.data_rx.try_receive w.bt_data_rx)) [
          | inl e ↦
              let none_left = laws.empty w.bt_data_rx e in
              record {
                bounded = ground (arith, v.bounded);
                set_up = (Level.high, ground arith);
                signalled = ground arith;
              }
          | inr ((packet, rest), e) ↦
              let first = laws.received w.bt_data_rx rest packet e in
              record {
                bounded = ground (arith, v.bounded);
                set_up = ground arith;
                signalled = ground arith;
              }
        ]
    event-IsSignalled (mpu m) w v = ground arith
