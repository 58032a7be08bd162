-- ===== src/Tests/Delivery.antt =====
-- The theorems on the wire format, on postcard's format and on peers that speak it.
use prime_ble_firmware.Base.{
  ◌%◌, ◌≤◌, ◌≡◌, refl, true, false, List, [], ◌∷◌, ◌++◌, Option, none, some, arith, length,
  length-take, leb, take, replicate, if◌then◌else◌, ◌&&◌,
}
use prime_ble_firmware.Base.Int.{pos, negsuc}
use prime_ble_firmware.Consts.{app_mtu}
use prime_ble_firmware.Protocol.{Bytes, is_request, Bluetooth, Bootloader, HostProtocolMessage}
use prime_ble_firmware.Protocol.Frame.{ack_msg_send}
use prime_ble_firmware.Protocol.Wire.{IsU8}
use prime_ble_firmware.Protocol.Wire.Parts.{IsArray, write_array, write_bytes, read_bytes}
use prime_ble_firmware.Protocol.Wire.Messages.{write_message, read_message, wire_codec}
use prime_ble_firmware.Protocol.Wire.Bluetooth.{write_bluetooth, write_connection_status}
use prime_ble_firmware.Protocol.Wire.Bootloader.{write_bootloader, read_bootloader}
use prime_ble_firmware.Protocol.Wire.RoundTrip.Messages.{from_bytes-write_message}
use prime_ble_firmware.Protocol.Wire.Delivery.{Delivers, ack_msg_send-Delivers}
use prime_ble_firmware.Protocol.Compatibility.{check_messages}
use prime_ble_firmware.Protocol.Compatibility.Base.{base_messages}
use prime_ble_firmware.Protocol.Compatibility.Bootloader.{bootloader_messages}
use prime_ble_firmware.Protocol.Compatibility.Bluetooth.{bluetooth_messages}
use prime_ble_firmware.Boot.Session.{Board, Loader, SpiRead, start, handle, round}
use prime_ble_firmware.Boot.Session.Wired.{ResultLaws}
use prime_ble_firmware.Boot.Session.Wired.Answered as Boot
use prime_ble_firmware.Boot.Session.Wired.Handled.{shown, read_turn, round-write_message}
use prime_ble_firmware.Firmware.Kernel.{Kernel, Level, World, CommsContext}
use prime_ble_firmware.Firmware.Comms.{comms_round}
use prime_ble_firmware.Firmware.Comms.Answered as Firmware
use prime_ble_firmware.Firmware.Comms.Answered.{FoundLaws}
use prime_ble_firmware.Tests.Wire.{sim_postcard, sim_postcard_laws}
use prime_ble_firmware.Tests.Chip.{sim_board, sim_digests, sim_cosign}
use prime_ble_firmware.Tests.Peer.{sim_kernel, cells}

abbrev block : HostProtocolMessage
block = HostProtocolMessage.bootloader (Bootloader.write_firmware_block 300 (7 ∷ 8 ∷ 9 ∷ []))

abbrev name : HostProtocolMessage
name = HostProtocolMessage.bluetooth (Bluetooth.set_device_name (b'B' ∷ b'T' ∷ []))

name-is_utf8 : sim_postcard.is_utf8 (b'B' ∷ b'T' ∷ []) ≡ true
unfolding sim_postcard
name-is_utf8 = refl

-- The test of the repository passes.
base_messages-check : check_messages sim_postcard base_messages ≡ true
unfolding check_messages write_message sim_postcard write_array
base_messages-check = refl

bootloader_messages-check : check_messages sim_postcard bootloader_messages ≡ true
unfolding check_messages write_message write_bootloader sim_postcard write_array write_bytes
bootloader_messages-check = refl

bluetooth_messages-check : check_messages sim_postcard bluetooth_messages ≡ true
unfolding check_messages write_message write_bluetooth write_connection_status sim_postcard
    write_array write_bytes
bluetooth_messages-check = refl

from_bytes-write_message_example :
    (wire_codec sim_postcard).from_bytes (write_message sim_postcard block ++ 1 ∷ []) ≡ some block
from_bytes-write_message_example =
    from_bytes-write_message sim_postcard sim_postcard_laws block (1 ∷ [])
      (omega arith, omega arith)

ack_msg_send-Delivers_example :
    Delivers sim_postcard (ack_msg_send (wire_codec sim_postcard) name) name
ack_msg_send-Delivers_example =
    ack_msg_send-Delivers sim_postcard sim_postcard_laws name
      ((omega arith, name-is_utf8), omega arith) tt

abbrev sent_block : Bytes
sent_block = 1 ∷ 9 ∷ 172 ∷ 2 ∷ 3 ∷ 7 ∷ 8 ∷ 9 ∷ []

block-from_bytes : (wire_codec sim_postcard).from_bytes sent_block ≡ some block
unfolding read_message read_bootloader read_bytes sim_postcard
block-from_bytes = refl

-- A chip whose hashes and MACs are bytes, 32 of them.
abbrev pub digest : Bytes → Bytes
digest bs = replicate 32 (length bs % 256)

abbrev pub wire_board : Board
wire_board = record sim_board {
  cosign = record sim_cosign { binary_hash = λ header. digest header.1 };
  digests = record sim_digests {
    hmac_sha256 = λ key message. some (digest (key ++ message));
    string_from_str =
        λ n bs. if leb (length bs) n && sim_postcard.is_utf8 bs then some bs else none;
  };
  codec = wire_codec sim_postcard;
}

digest-IsArray : (bs : Bytes) → IsArray IsU8 32 (digest bs)
digest-IsArray bs = ground arith

pub wire_results : ResultLaws sim_postcard wire_board.cosign wire_board.digests
wire_results = record {
  binary_hash-IsArray = λ header. digest-IsArray header.1;
  hmac_sha256-IsArray = λ key message mac e. ground (arith, digest-IsArray (key ++ message));
  crc32_iscsi-IsU32 = λ bs. ground arith;
  string_from_str-IsStr = λ cap bs s e. ground arith;
}

abbrev pub loader : Loader wire_board
loader = start wire_board (λ a. 255) (record { cell = λ i. 0xFFFFFFFF; writable = false })

block-is_request :
    (m : HostProtocolMessage)
    → (wire_codec sim_postcard).from_bytes sent_block ≡ some m
    → is_request m ≡ true
unfolding is_request
block-is_request m e = ground (arith, block-from_bytes)

round-write_message_example :
    let r = round wire_board (SpiRead.received (write_message sim_postcard block)) loader in
    (r.0 ≡ (handle wire_board block loader).0)
    × (read_turn sim_postcard wire_board r.1 ≡ shown wire_board (handle wire_board block loader).1)
round-write_message_example =
    round-write_message sim_postcard sim_postcard_laws wire_board refl wire_results block loader
      (omega arith, omega arith)

round-IsAnswered_example :
    Boot.IsAnswered sim_postcard wire_board sent_block
      (round wire_board (SpiRead.received sent_block) loader).1
round-IsAnswered_example =
    Boot.round-IsAnswered sim_postcard sim_postcard_laws wire_board refl wire_results 1
      (9 ∷ 172 ∷ 2 ∷ 3 ∷ 7 ∷ 8 ∷ 9 ∷ []) loader block-is_request

abbrev oldest : List Bytes → Option (Bytes × List Bytes)
oldest [] = none
oldest (packet ∷ q) = some (take app_mtu packet, q)

oldest-le :
    (q q' : List Bytes) (packet : Bytes) → oldest q ≡ some (packet, q') → length packet ≤ app_mtu
oldest-le [] q' packet e = absurd (ground arith)
oldest-le (first ∷ q) q' packet e = ground (arith, length-take app_mtu first)

-- A controller whose packets fit, and whose signal is weak.
abbrev wire_kernel : Kernel
wire_kernel = record sim_kernel {
  data_rx = record {
    Queue = List Bytes;
    items = λ q. q;
    try_send = λ q packet. some (q ++ packet ∷ []);
    try_receive = λ q. oldest q;
  };
  radio = record sim_kernel.radio { rssi = λ air c. some (negsuc 90) };
  digests = wire_board.digests;
  codec = wire_codec sim_postcard;
}

abbrev wire_context : CommsContext
wire_context = record {
  address = replicate 6 0xC0;
  device_id = replicate 8 0x11;
  tx_value_handle = 12;
}

wire_found : FoundLaws sim_postcard wire_kernel wire_context
wire_found = record {
  hmac_sha256-IsArray = λ key message mac e. ground (arith, digest-IsArray (key ++ message));
  rssi-IsI8 = λ air c r e. ground arith;
  try_receive-le = λ q q' packet e. oldest-le q q' packet e;
  address-IsArray = ground arith;
  device_id-IsArray = ground arith;
}

abbrev world : World wire_kernel
world = record {
  bt_enable = none;
  bt_adv_chan = 0;
  bt_data_rx = (5 ∷ 6 ∷ []) ∷ [];
  bt_data_rx_overflow = false;
  tx_pwr_value = pos 0;
  device_name = b'P' ∷ [];
  bt_adv_changed = none;
  connection = none;
  irq_out_pin = some Level.low;
  bt_state_copy = true;
  air = [];
  regs = cells;
}

comms_round-IsAnswered_example :
    Firmware.IsAnswered sim_postcard wire_kernel
      (0 ∷ 11 ∷ [])
      (comms_round wire_kernel (some (0 ∷ 11 ∷ [])) wire_context world).1
comms_round-IsAnswered_example =
    Firmware.comms_round-IsAnswered sim_postcard sim_postcard_laws wire_kernel refl wire_context
      wire_found (0 ∷ 11 ∷ []) world
