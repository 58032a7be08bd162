-- ===== src/Firmware/Nus/Queue/Fetched.antt =====
-- Packets that a peer writes to firmware/src/nus.rs and that the MPU then fetches by
-- `GetReceivedData`.
use prime_ble_firmware.Base.{
  ◌+◌, ◌≤◌, ◌≡◌, refl, sym, ap, ◌∙◌, true, List, [], ◌∷◌, ◌++◌, arith, length, length-append, inl,
  inr, Option-cases,
}
use mathlib.Core.List.{append_assoc, append-nil}
use prime_ble_firmware.Consts.{bt_max_num_pkt}
use prime_ble_firmware.Protocol.{Bytes, Bluetooth, HostProtocolMessage}
use prime_ble_firmware.Firmware.Kernel.{Kernel, World, CommsContext, ChannelLaws}
use prime_ble_firmware.Firmware.Comms.{host_protocol_handler}
use prime_ble_firmware.Firmware.Nus.{NusEvent, nus_handle}
use prime_ble_firmware.Firmware.Nus.Queue.{Event, pending, event, run_events, written_flow}

-- The peer writes each packet.
abbrev pub writes : List Bytes → List Event
writes [] = []
writes (packet ∷ packets) = Event.peer (NusEvent.rx_write packet) ∷ writes packets

abbrev fetch : Event
fetch = Event.mpu (HostProtocolMessage.bluetooth Bluetooth.get_received_data)

-- The MPU asks once for each packet.
abbrev pub fetches : List Bytes → List Event
fetches [] = []
fetches (packet ∷ packets) = fetch ∷ fetches packets

module _ (k : Kernel) (context : CommsContext) (laws : ChannelLaws k.data_rx) where
  run_events-pending :
      (packets : List Bytes) (w : World k)
      → length (pending k context w) + length packets ≤ bt_max_num_pkt
      → (pending k context (run_events k context (writes packets) w).0
          ≡ pending k context w ++ packets)
        × ((run_events k context (writes packets) w).1 ≡ [])
  unfolding run_events event
  run_events-pending [] w le = (sym (append-nil (pending k context w)), refl)
  run_events-pending (packet ∷ packets) w le =
      let w' = nus_handle k true (NusEvent.rx_write packet) w in
      let taken : pending k context w' ≡ pending k context w ++ packet ∷ [] =
        ground (arith, written_flow k context laws packet w) in
      let (queued, silent) =
        run_events-pending packets w'
          (ground (arith, taken, length-append (pending k context w) (packet ∷ []))) in
      (
        queued
            ∙ ap (λ q. q ++ packets) taken
            ∙ append_assoc (pending k context w) (packet ∷ []) packets,
        silent,
      )

  fetch_delivered :
      (packet : Bytes) (packets : List Bytes) (w : World k)
      → pending k context w ≡ packet ∷ packets
      → ((event k context fetch w).1 ≡ packet ∷ [])
        × (pending k context (event k context fetch w).0 ≡ packets)
  unfolding event host_protocol_handler
  fetch_delivered packet packets w h = elim (Option-cases (k.data_rx.try_receive w.bt_data_rx)) [
    | inl e ↦ ground (arith, laws.empty w.bt_data_rx e)
    | inr ((first, rest), e) ↦ ground (arith, laws.received w.bt_data_rx rest first e)
  ]

  run_events_delivered :
      (packets : List Bytes) (w : World k)
      → pending k context w ≡ packets
      → (run_events k context (fetches packets) w).1 ≡ packets
  unfolding run_events
  run_events_delivered [] w h = refl
  run_events_delivered (packet ∷ packets) w h =
      let (one, others) = fetch_delivered packet packets w h in
      ground (arith, one, run_events_delivered packets (event k context fetch w).0 others)

  run_events_append :
      (es others : List Event) (w : World k)
      → (run_events k context (es ++ others) w).1
        ≡ (run_events k context es w).1
          ++ (run_events k context others (run_events k context es w).0).1
  unfolding run_events
  run_events_append [] others w = refl
  run_events_append (e ∷ es) others w =
      ap (λ got. (event k context e w).1 ++ got)
        (run_events_append es others (event k context e w).0)
      ∙ sym (append_assoc (event k context e w).1 _ _)

  -- Up to sixteen packets that a peer writes while none waits are what the MPU gets, in this order,
  -- when it asks as many times.
  pub run_events_fetched :
      (packets : List Bytes) (w : World k)
      → pending k context w ≡ []
      → length packets ≤ bt_max_num_pkt
      → (run_events k context (writes packets ++ fetches packets) w).1 ≡ packets
  run_events_fetched packets w none_yet le =
      let (queued, silent) = run_events-pending packets w (ground (arith, none_yet)) in
      run_events_append (writes packets) (fetches packets) w
      ∙ ap
          (λ got.
            got
            ++ (run_events k context (fetches packets)
                (run_events k context (writes packets) w).0).1)
          silent
      ∙ run_events_delivered packets (run_events k context (writes packets) w).0
          (queued ∙ ap (λ q. q ++ packets) none_yet)
