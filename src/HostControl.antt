-- ===== src/HostControl.antt =====
-- host-protocol/examples/host_control.rs: the host's side of a command and of an update. The serial
-- port and postcard's COBS framing are parameters.
pub mod Sent
pub mod Update
use prime_ble_firmware.Base.{
  ℕ, ◌+◌, ◌≡◌, Bool, true, false, ◌&&◌, List, [], ◌∷◌, ◌++◌, Option, none, some, ◌==◌,
  if◌then◌else◌, replicate, length, take, chunks,
}
use prime_ble_firmware.Protocol.{Bytes, Bluetooth, Bootloader, HostProtocolMessage}
use prime_ble_firmware.Platform.{Digests}

abbrev pub chunk_size : ℕ
chunk_size = 256

pub data Command : Type 0 where
  reset enable disable rssi address fw_version send_data erase_app update_app : Command

-- `From<Command>`.
unfoldable pub command_message : Command → HostProtocolMessage
command_message Command.reset = HostProtocolMessage.reset
command_message Command.enable = HostProtocolMessage.bluetooth Bluetooth.enable
command_message Command.disable = HostProtocolMessage.bluetooth Bluetooth.disable
command_message Command.rssi = HostProtocolMessage.bluetooth Bluetooth.get_status
command_message Command.address = HostProtocolMessage.bluetooth Bluetooth.get_bt_address
command_message Command.fw_version = HostProtocolMessage.bluetooth Bluetooth.get_firmware_version
command_message Command.send_data =
    HostProtocolMessage.bluetooth (Bluetooth.send_data (replicate 200 0x30))
command_message Command.erase_app = HostProtocolMessage.bootloader Bootloader.erase_firmware
command_message Command.update_app = HostProtocolMessage.bootloader Bootloader.erase_firmware

abbrev is_update_app : Command → Bool
is_update_app Command.update_app = true
is_update_app _ = false

-- What comes of a read with a time-out: `Ok(Ok(_))`, `Ok(Err(_))`, `Err(_)`.
pub data Reading : Type 0 where
  received read_failed timed_out : Reading

-- tokio_serial. A Boolean says whether the call returned `Ok`.
pub record Serial : Type 1 where
  pub Port : Type 0
  pub write_all : Bytes → Port → Port × Bool
  pub flush : Port → Port × Bool
  -- milliseconds to wait, the buffer, and the buffer after the read
  pub read : ℕ → Bytes → Port → Port × Bytes × Reading

-- postcard on a buffer. `to_slice_cobs` gives the buffer with the frame in front, and how long that
-- is; `from_bytes_cobs` decodes in place.
pub record Cobs : Type 0 where
  pub to_slice_cobs : HostProtocolMessage → Bytes → Option (Bytes × ℕ)
  pub from_bytes_cobs : Bytes → Bytes × Option HostProtocolMessage

-- The frame of a message is its encoding, whatever the buffer held before.
pub record CobsLaws (c : Cobs) : Type 0 where
  pub encode : HostProtocolMessage → Bytes
  pub encoded :
      (m : HostProtocolMessage) (buf after : Bytes) (n : ℕ)
      → c.to_slice_cobs m buf ≡ some (after, n)
      → take n after ≡ encode m

-- How a part of the program ends: it returns, returns an error from `main`, or panics.
pub data Ending (A : Type 0) : Type 0 where
  returns : A → Ending A
  fails : Ending A
  panics : Ending A

-- What is reported at the end of a run: no response, an answer that is printed, that the loop went
-- through the whole file, or that it broke off at a chunk.
pub data Report : Type 0 where
  no_response : Report
  printed : HostProtocolMessage → Report
  sent_all : Report
  broken : ℕ → Report

-- Whether the loop goes on after an answer to chunk `idx`: any answer that is neither of the two
-- that are looked at lets it.
unfoldable pub goes_on : ℕ → ℕ → HostProtocolMessage → Bool
goes_on idx crc_pkt (HostProtocolMessage.bootloader (Bootloader.ack_with_idx_crc block_idx crc)) =
    block_idx == idx && crc == crc_pkt
goes_on idx crc_pkt (HostProtocolMessage.bootloader (Bootloader.nack_with_idx block_idx)) = false
goes_on idx crc_pkt _ = true

module _ (s : Serial) (c : Cobs) (d : Digests) where
  -- The port, `buf`, and the frames that were written, the oldest first.
  pub record Line : Type 0 where
    pub port : s.Port
    pub buf : Bytes
    pub written : List Bytes

  -- `write_all(..).await?; flush().await?`
  put : Line → Option (Bytes × ℕ) → Line × Ending (Unit {0})
  put l none = (l, Ending.panics)
  put l (some (buf, n)) =
      let (port, whole) = s.write_all (take n buf) l.port in
      let (flushed, done) = s.flush port in
      if whole
      then (
        record { port = flushed; buf = buf; written = l.written ++ take n buf ∷ [] },
        if done then Ending.returns tt else Ending.fails,
      )
      else (record l { port = port; buf = buf }, Ending.fails)

  unfoldable pub send : HostProtocolMessage → Line → Line × Ending (Unit {0})
  unfolding put
  send m l = put l (c.to_slice_cobs m l.buf)

  unfoldable pub receive : ℕ → Line → Line × Reading
  receive ms l = let r = s.read ms l.buf l.port in (record l { port = r.0; buf = r.1 }, r.2)

  -- `from_bytes_cobs(..).unwrap()`
  or_panic : Option HostProtocolMessage → Ending HostProtocolMessage
  or_panic none = Ending.panics
  or_panic (some m) = Ending.returns m

  unfoldable pub decode : Line → Line × Ending HostProtocolMessage
  unfolding or_panic
  decode l = let r = c.from_bytes_cobs l.buf in (record l { buf = r.0 }, or_panic r.1)

  -- Whether the loop goes on, after the answer to a chunk.
  answered : ℕ → ℕ → Line × Ending HostProtocolMessage → Line × Ending Bool
  answered idx crc_pkt (l, Ending.returns m) = (l, Ending.returns (goes_on idx crc_pkt m))
  answered idx crc_pkt (l, Ending.fails) = (l, Ending.fails)
  answered idx crc_pkt (l, Ending.panics) = (l, Ending.panics)

  unfoldable pub chunk_answer : ℕ → ℕ → Line × Reading → Line × Ending Bool
  unfolding answered
  chunk_answer idx crc_pkt (l, Reading.received) = answered idx crc_pkt (decode l)
  chunk_answer idx crc_pkt (l, Reading.read_failed) = (l, Ending.returns true)
  chunk_answer idx crc_pkt (l, Reading.timed_out) = (l, Ending.returns false)

  chunk_sent : ℕ → Bytes → Line × Ending (Unit {0}) → Line × Ending Bool
  chunk_sent idx chunk (l, Ending.returns _) =
      chunk_answer idx (d.crc32_iscsi chunk) (receive 100 l)
  chunk_sent idx chunk (l, Ending.fails) = (l, Ending.fails)
  chunk_sent idx chunk (l, Ending.panics) = (l, Ending.panics)

  unfoldable pub send_chunk : ℕ → Bytes → Line → Line × Ending Bool
  unfolding chunk_sent
  send_chunk idx chunk l =
      chunk_sent idx chunk
        (send (HostProtocolMessage.bootloader (Bootloader.write_firmware_block idx chunk)) l)

  proceed : ℕ → Line × Ending Report → Line × Ending Bool → Line × Ending Report
  proceed idx others (l, Ending.returns true) = others
  proceed idx others (l, Ending.returns false) = (l, Ending.returns (Report.broken idx))
  proceed idx others (l, Ending.fails) = (l, Ending.fails)
  proceed idx others (l, Ending.panics) = (l, Ending.panics)

  -- The loop over the chunks, from chunk `idx` on.
  unfoldable pub send_chunks : ℕ → List Bytes → Line → Line × Ending Report
  unfolding proceed
  send_chunks idx [] l = (l, Ending.returns Report.sent_all)
  send_chunks idx (chunk ∷ rest) l =
      let r = send_chunk idx chunk l in
      let others = send_chunks (idx + 1) rest r.0 in proceed idx others r

  unfoldable pub on_answer :
      Command → Bytes → Line × Ending HostProtocolMessage → Line × Ending Report
  on_answer cmd update_file
        (l, Ending.returns (HostProtocolMessage.bootloader Bootloader.ack_erase_firmware)) =
      if is_update_app cmd
      then send_chunks 0 (chunks chunk_size (length update_file) update_file) l
      else (
        l,
        Ending.returns
            (Report.printed (HostProtocolMessage.bootloader Bootloader.ack_erase_firmware)),
      )
  on_answer cmd update_file (l, Ending.returns ans) = (l, Ending.returns (Report.printed ans))
  on_answer cmd update_file (l, Ending.fails) = (l, Ending.fails)
  on_answer cmd update_file (l, Ending.panics) = (l, Ending.panics)

  -- A read that fails leaves what the buffer held, and that is decoded.
  unfoldable pub command_answer : Command → Bytes → Line × Reading → Line × Ending Report
  command_answer cmd update_file (l, Reading.timed_out) = (l, Ending.returns Report.no_response)
  command_answer cmd update_file (l, Reading.received) = on_answer cmd update_file (decode l)
  command_answer cmd update_file (l, Reading.read_failed) = on_answer cmd update_file (decode l)

  command_sent : Command → Bytes → Line × Ending (Unit {0}) → Line × Ending Report
  command_sent cmd update_file (l, Ending.returns _) =
      command_answer cmd update_file (receive 5000 l)
  command_sent cmd update_file (l, Ending.fails) = (l, Ending.fails)
  command_sent cmd update_file (l, Ending.panics) = (l, Ending.panics)

  unfoldable pub run_command : Command → Bytes → Line → Line × Ending Report
  unfolding command_sent
  run_command cmd update_file l = command_sent cmd update_file (send (command_message cmd) l)
