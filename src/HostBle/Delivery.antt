-- ===== src/HostBle/Delivery.antt =====
-- From host-ble/src/main.rs over the air to the MPU: the packets that the test program writes, and
-- firmware/src/nus.rs and firmware/src/comms.rs on the other side.
use prime_ble_firmware.Base.{List, [], ◌∷◌}
use prime_ble_firmware.Protocol.{Bytes}
use prime_ble_firmware.Firmware.Kernel.{Kernel}
use prime_ble_firmware.Firmware.Kernel
use prime_ble_firmware.HostBle.{data9, data10}

abbrev pub four : List Bytes
four = data9 ∷ data10 ∷ data9 ∷ data10 ∷ []
