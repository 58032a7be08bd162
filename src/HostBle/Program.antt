-- ===== src/HostBle/Program.antt =====
-- What host-ble/src/main.rs does: the choice of an adapter, the handling of an event, and the loop.
use prime_ble_firmware.Base.{
  Bool, true, false, List, [], ◌∷◌, ◌++◌, Option, none, some, ◌==◌, if◌then◌else◌, ℕ,
}
use prime_ble_firmware.Consts.{nus_uuid, short_name}
use prime_ble_firmware.Protocol.{Bytes}
use prime_ble_firmware.HostBle.{
  Central, CentralEvent, Args, World, Ending, Task, ◌>>=◌, ◌>>◌, pure, skip, asks, calls, when,
  or_fail, or_panic, contains, unwrap_or_default, prime, data9, data10, write_characteristic_uuid,
  read_characteristic_uuid,
}

module _ (c : Central) (central : c.Adapter) where
  -- `iter().find(|c| c.uuid == wanted)`
  abbrev pub find : ℕ → List c.Characteristic → Option c.Characteristic
  find wanted [] = none
  find wanted (x ∷ xs) = if c.uuid x == wanted then some x else find wanted xs

  -- The peripheral of an event and its name.
  unfoldable pub named : c.PeripheralId → Task c (c.Peripheral × Bytes)
  named id = do
    peripheral ← asks (λ net. or_fail (c.peripheral net central id))
    name ← asks (λ net. or_fail (c.local_name net peripheral))
    pure (peripheral, unwrap_or_default name)

  -- `peripheral.write(_, _, WriteType::WithoutResponse).await?`
  unfoldable pub noted :
      c.Characteristic → Bytes → World c → c.Net × Option (Unit {0}) → World c × Ending (Unit {0})
  noted charac packet w (net, none) = (record w { net = net }, Ending.fails)
  noted charac packet w (net, some _) =
      (record { net = net; sent = w.sent ++ (charac, packet) ∷ [] }, Ending.returns tt)

  unfoldable pub write : c.Peripheral → c.Characteristic → Bytes → Task c (Unit {0})
  unfolding noted
  write peripheral charac packet w = noted charac packet w (c.write peripheral charac packet w.net)

  unfoldable pub write_data : c.Peripheral → Task c (Unit {0})
  write_data peripheral = do
    charac ←
        asks (λ net. or_panic (find write_characteristic_uuid (c.characteristics net peripheral)))
    write peripheral charac data9
    write peripheral charac data10
    write peripheral charac data9
    write peripheral charac data10

  unfoldable pub read_data : c.Peripheral → Task c (Unit {0})
  read_data peripheral = do
    charac ←
        asks (λ net. or_panic (find read_characteristic_uuid (c.characteristics net peripheral)))
    calls (c.read peripheral charac) or_fail
    pure tt

  -- A connection that cannot be made is skipped.
  connected_or_skip : Bool → Ending (Unit {0})
  connected_or_skip true = Ending.returns tt
  connected_or_skip false = Ending.continues

  unfoldable pub on_device_discovered : c.PeripheralId → Task c (Unit {0})
  unfolding connected_or_skip
  on_device_discovered id = do
    (peripheral, name) ← named id
    when (if contains name short_name then false else true) skip
    connected ← asks (λ net. or_fail (c.is_connected net peripheral))
    when (if connected then false else true) (calls (c.connect peripheral) connected_or_skip)

  -- What `enumerate` prints is left out.
  unfoldable pub on_device_connected : Args → c.PeripheralId → Task c (Unit {0})
  on_device_connected args id = do
    (peripheral, name) ← named id
    when (if contains name prime then false else true) skip
    calls (c.discover_services peripheral) or_fail
    when args.write_data (write_data peripheral)
    when args.read_data (read_data peripheral)
    calls (c.disconnect peripheral) or_panic

  -- The other events that have a device: its name is printed.
  unfoldable pub on_printed : c.PeripheralId → Task c (Unit {0})
  on_printed id = do named id; pure tt

  unfoldable pub on_event : Args → CentralEvent c → Task c (Unit {0})
  on_event args (CentralEvent.device_discovered id) = on_device_discovered id
  on_event args (CentralEvent.device_connected id) = on_device_connected args id
  on_event args (CentralEvent.printed id) = on_printed id
  on_event args CentralEvent.other = pure tt

  -- The events until one ends the program, or there are no more.
  unfoldable pub on_events : Args → List (CentralEvent c) → World c → World c × Ending (Unit {0})
  on_events args [] w = (w, Ending.returns tt)
  on_events args (e ∷ es) w =
      let r = on_event args e w in
      let rest = on_events args es r.0 in
      elim r.1 [
        | Ending.returns a ↦ rest
        | Ending.continues ↦ rest
        | Ending.fails ↦ (r.0, Ending.fails)
        | Ending.panics ↦ (r.0, Ending.panics)
      ]

module _ (c : Central) where
  -- The first adapter whose description contains what was asked for.
  unfoldable pub wanted_adapter : c.Net → Bytes → List c.Adapter → Option c.Adapter
  wanted_adapter net wanted [] = none
  wanted_adapter net wanted (a ∷ rest) = elim (c.adapter_info net a) [
    | none ↦ wanted_adapter net wanted rest
    | some info ↦ if contains info wanted then some a else wanted_adapter net wanted rest
  ]

  -- The first of all if there is none; its description must be readable, as it is printed.
  unfoldable pub choose_adapter : c.Net → Bytes → List c.Adapter → Ending c.Adapter
  unfolding wanted_adapter
  choose_adapter net wanted adapter_list = elim (wanted_adapter net wanted adapter_list) [
    | some a ↦ Ending.returns a
    | none ↦ first_adapter adapter_list
  ]
    where
      readable : c.Adapter → Option Bytes → Ending c.Adapter
      readable a none = Ending.fails
      readable a (some info) = Ending.returns a

      first_adapter : List c.Adapter → Ending c.Adapter
      first_adapter [] = Ending.panics
      first_adapter (a ∷ rest) = readable a (c.adapter_info net a)

  -- The program without `list_adapters`, on the events that come.
  unfoldable pub main :
      Args → Bytes → List c.Adapter → List (CentralEvent c) → World c → World c × Ending (Unit {0})
  main args adapter adapter_list central_events = do
    central ← asks (λ net. choose_adapter net adapter adapter_list)
    asks (λ net. or_panic (c.adapter_state net central))
    asks (λ net. or_fail (c.events net central))
    calls (c.start_scan central (nus_uuid ∷ [])) or_fail
    on_events c central args central_events
