-- ===== src/Tests/Panics.antt =====
-- The theorems on the panic of the firmware, on a name of thirty bytes and on all bits set.
use prime_ble_firmware.Base.{replicate}
use prime_ble_firmware.Protocol.{AdvChan, Bytes}

abbrev long_name : Bytes
long_name = replicate 30 b'x'

abbrev all_bits : AdvChan
all_bits = record { bits = 0xFF }
