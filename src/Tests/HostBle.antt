-- ===== src/Tests/HostBle.antt =====
-- The theorem on the test program, with a controller that it finds and that takes every packet.
use prime_ble_firmware.Base.{ℕ, suc, true, false, List, [], ◌∷◌, some}
use prime_ble_firmware.Consts.{default_device_name}
use prime_ble_firmware.Protocol.{Bytes}
use prime_ble_firmware.HostBle.{
  Central, Args, World, write_characteristic_uuid, read_characteristic_uuid,
}
use prime_ble_firmware.HostBle.Program.{write, write_data, read_data, on_device_connected}
use prime_ble_firmware.HostBle.Sends.{received}

-- Its state is how many packets it took.
abbrev sim_central : Central
sim_central = record {
  Net = ℕ;
  Adapter = ℕ;
  PeripheralId = ℕ;
  Peripheral = ℕ;
  Characteristic = ℕ;
  uuid = λ x. x;
  adapter_info = λ net a. some [];
  adapter_state = λ net a. some tt;
  events = λ net a. some tt;
  start_scan = λ a services net. (net, some tt);
  peripheral = λ net a id. some id;
  local_name = λ net p. some (some default_device_name);
  is_connected = λ net p. some false;
  connect = λ p net. (net, true);
  discover_services = λ p net. (net, some tt);
  characteristics = λ net p. read_characteristic_uuid ∷ write_characteristic_uuid ∷ [];
  write = λ p charac packet net. (suc net, some tt);
  read = λ p charac net. (net, some []);
  disconnect = λ p net. (net, some tt);
}

abbrev args : Args
args = record { enumerate = false; write_data = true; read_data = true }

abbrev idle : World sim_central
idle = record { net = 0; sent = [] }

abbrev packets : List Bytes
packets = received sim_central (on_device_connected sim_central 0 args 5 idle).0.sent
