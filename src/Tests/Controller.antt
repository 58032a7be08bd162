-- ===== src/Tests/Controller.antt =====
-- The theorems on the firmware, applied to runs on simulated queues, signals and a radio.
use prime_ble_firmware.Base.{
  ◌≡◌, ◌↔◌, ◌⊎◌, refl, Bool, true, false, List, [], ◌∷◌, ◌++◌, Option, none, some,
}
use prime_ble_firmware.Base.Int.{negsuc}
use prime_ble_firmware.Consts.{bt_max_num_pkt}
use prime_ble_firmware.Protocol.{Bluetooth, Bootloader, ConnectionStatus, HostProtocolMessage}
use prime_ble_firmware.Firmware.Kernel.{World}
use prime_ble_firmware.Firmware.Comms.{Answer, get_state, host_protocol_handler}
use prime_ble_firmware.Firmware.Comms.Replies.{host_protocol_handler_inappropriate}
use prime_ble_firmware.Firmware.Nus.{NusEvent, nus_handle}
use prime_ble_firmware.Firmware.Nus.Queue.{
  Event, pending, event, run_events, IsSignalled, run_events_flow,
}
use prime_ble_firmware.Firmware.Startup.{Fresh, initial_world, initial_world-IsSignalled}
use prime_ble_firmware.Firmware.Server.{
  Advertisement, advertisement, static_adv_data, Phase, Task, Step, Steps, advertise, connect, stop,
}
use prime_ble_firmware.Firmware.Server.Advertising.{IsChanged, Steps-advertising}
use prime_ble_firmware.Firmware.Server.Connection.{
  status_request, reported, Steps-status, disable_status,
}
use prime_ble_firmware.Tests.Peer.{
  list_channel_laws, slot_signal_laws, sim_kernel, cells, initial, context, to_controller,
}

-- A packet of the peer, and the fetching of it.
abbrev traffic : List Event
traffic =
    Event.peer (NusEvent.rx_write (1 ∷ []))
    ∷ Event.peer (NusEvent.rx_write (2 ∷ []))
    ∷ Event.mpu (to_controller Bluetooth.get_received_data)
    ∷ []

run_events_flow_example :
    let r = run_events sim_kernel context traffic initial in
    r.1 ++ pending sim_kernel context r.0 ≡ (1 ∷ []) ∷ (2 ∷ []) ∷ []
unfolding event nus_handle
run_events_flow_example =
    run_events_flow sim_kernel context (list_channel_laws bt_max_num_pkt) traffic initial

abbrev fresh : Fresh sim_kernel
fresh = record { enable = none; data_rx = []; adv_changed = none; air = []; regs = cells }

initial_world-IsSignalled_example :
    IsSignalled sim_kernel context
      (list_channel_laws bt_max_num_pkt)
      (run_events sim_kernel context traffic (initial_world sim_kernel fresh)).0
initial_world-IsSignalled_example =
    initial_world-IsSignalled sim_kernel context (list_channel_laws bt_max_num_pkt) fresh traffic
      refl

-- The MPU enables the radio, and the task starts to advertise.
abbrev enabled_world : World sim_kernel
enabled_world = record initial { bt_enable = some true; bt_state_copy = true }

abbrev on_air : Task sim_kernel
on_air = advertise sim_kernel (record enabled_world { bt_enable = none })

abbrev idle_task : Task sim_kernel
idle_task = record { world = initial; phase = Phase.waiting }

to_air : Steps sim_kernel context idle_task on_air
unfolding host_protocol_handler
to_air =
    Steps.next
      (Steps.next Steps.here (Step.message (to_controller Bluetooth.enable) (λ q. cc) refl))
      (Step.enabled none refl refl refl)

abbrev first_advertisement : Advertisement sim_kernel
first_advertisement = advertisement sim_kernel (record enabled_world { bt_enable = none })

Steps-advertising_example :
    IsChanged sim_kernel context on_air.world
    ⊎ (first_advertisement ≡ advertisement sim_kernel on_air.world)
unfolding advertise
Steps-advertising_example =
    Steps-advertising sim_kernel context (slot_signal_laws (Unit {0})) initial on_air
      first_advertisement to_air refl

-- A peer connects.
abbrev connected : Task sim_kernel
connected = connect sim_kernel (some (negsuc 49)) on_air.world

to_connection : Steps sim_kernel context idle_task connected
unfolding advertise advertisement static_adv_data
to_connection =
    Steps.next to_air (Step.connected first_advertisement (some (negsuc 49)) refl refl refl)

Steps-status_example :
    (host_protocol_handler sim_kernel (status_request sim_kernel context) context connected.world).1
    ≡ reported sim_kernel context (ConnectionStatus.connected (negsuc 49)) false
unfolding connect advertise
Steps-status_example =
    Steps-status sim_kernel context initial connected (some (negsuc 49)) to_connection refl

disable_status_example :
    let w =
      (host_protocol_handler sim_kernel
        (to_controller Bluetooth.disable)
        context
        connected.world).0 in
    (slot : Option Bool) × Step sim_kernel context
      (record connected { world = w })
      (stop sim_kernel slot w)
    × ((host_protocol_handler sim_kernel
          (status_request sim_kernel context)
          context
          (stop sim_kernel slot w).world).1
        ≡ reported sim_kernel context (ConnectionStatus.connected (negsuc 49)) false)
    × ((stop sim_kernel slot w).world.bt_state_copy ≡ false)
unfolding connect advertise
disable_status_example =
    disable_status sim_kernel context (slot_signal_laws Bool) connected (some (negsuc 49)) refl refl

host_protocol_handler_inappropriate_example :
    ((host_protocol_handler sim_kernel
        (HostProtocolMessage.bootloader Bootloader.erase_firmware)
        context
        initial).1
      ≡ Answer.answers (HostProtocolMessage.inappropriate_message (get_state sim_kernel initial)))
    ↔ (false ≡ false)
host_protocol_handler_inappropriate_example =
    host_protocol_handler_inappropriate sim_kernel
      (HostProtocolMessage.bootloader Bootloader.erase_firmware) context initial
