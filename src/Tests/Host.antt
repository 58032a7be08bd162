-- ===== src/Tests/Host.antt =====
-- The theorems on the host's update, with a file of two chunks and a device that answers from a
-- list.
use prime_ble_firmware.Base.{
  ◌<◌, ◌≡◌, refl, ap, true, List, [], ◌∷◌, some, ◌==◌, if◌then◌else◌, arith, length, take, get_or,
  replicate, chunks,
}
use prime_ble_firmware.Protocol.{Bytes, Bootloader, HostProtocolMessage}
use prime_ble_firmware.HostControl.{
  Command, Reading, Serial, Cobs, CobsLaws, Ending, Report, Line, command_message, goes_on, send,
  receive, decode, chunk_answer, send_chunk, send_chunks, on_answer, command_answer, run_command,
}
use prime_ble_firmware.HostControl.Sent.{joined, AreShort, frames}
use prime_ble_firmware.HostControl.Update.{run_command-sent_all, run_command-broken}
use prime_ble_firmware.Tests.Chip.{sim_digests}

abbrev next_answer : Bytes → List Bytes → List Bytes × Bytes × Reading
next_answer buf [] = ([], buf, Reading.timed_out)
next_answer buf (answer ∷ rest) = (rest, answer, Reading.received)

-- Its state is the answers that are to come.
abbrev serial : Serial
serial = record {
  Port = List Bytes;
  write_all = λ frame port. (port, true);
  flush = λ port. (port, true);
  read = λ ms buf port. next_answer buf port;
}

-- A code, an index and a chunk; from the device a code, an index and a checksum.
abbrev sim_encode : HostProtocolMessage → Bytes
sim_encode (HostProtocolMessage.bootloader (Bootloader.write_firmware_block idx chunk)) =
    3 ∷ idx ∷ chunk
sim_encode _ = 2 ∷ []

abbrev sim_decode : Bytes → HostProtocolMessage
sim_decode buf =
    if get_or buf 0 0 == 1
    then HostProtocolMessage.bootloader Bootloader.ack_erase_firmware
    else if get_or buf 0 0 == 2
    then HostProtocolMessage.bootloader
        (Bootloader.ack_with_idx_crc (get_or buf 1 0) (get_or buf 2 0))
    else HostProtocolMessage.bootloader (Bootloader.nack_with_idx (get_or buf 1 0))

abbrev cobs : Cobs
cobs = record {
  to_slice_cobs = λ m buf. some (sim_encode m, length (sim_encode m));
  from_bytes_cobs = λ buf. (buf, some (sim_decode buf));
}

take-length : (xs : Bytes) → take (length xs) xs ≡ xs
take-length [] = refl
take-length (x ∷ xs) = ap (x ∷◌) (take-length xs)

cobs_laws : CobsLaws cobs
cobs_laws = record {
  encode = sim_encode;
  encoded = λ m buf after n e. ground (arith, take-length (sim_encode m));
}

abbrev file : Bytes
file = replicate 300 5

abbrev line : List Bytes → Line serial cobs sim_digests
line answers = record { port = answers; buf = replicate 512 0; written = [] }

abbrev good_line : Line serial cobs sim_digests
good_line = line ((1 ∷ []) ∷ (2 ∷ 0 ∷ 256 ∷ []) ∷ (2 ∷ 1 ∷ 44 ∷ []) ∷ [])

-- The second chunk is refused.
abbrev bad_line : Line serial cobs sim_digests
bad_line = line ((1 ∷ []) ∷ (2 ∷ 0 ∷ 256 ∷ []) ∷ (3 ∷ 1 ∷ []) ∷ [])

sent :
    (run_command serial cobs sim_digests Command.update_app file good_line).1
    ≡ Ending.returns Report.sent_all
unfolding run_command command_message goes_on send receive decode chunk_answer send_chunk
    send_chunks on_answer command_answer chunks
sent = refl

refused :
    (run_command serial cobs sim_digests Command.update_app file bad_line).1
    ≡ Ending.returns (Report.broken 1)
unfolding run_command command_message goes_on send receive decode chunk_answer send_chunk
    send_chunks on_answer command_answer chunks
refused = refl

run_command-sent_all_example :
    (cs : List Bytes) × (joined cs ≡ file)
    × AreShort cs
    × ((run_command serial cobs sim_digests Command.update_app file good_line).0.written
        ≡ (2 ∷ []) ∷ frames serial cobs sim_digests cobs_laws 0 cs)
unfolding cobs_laws
run_command-sent_all_example =
    run_command-sent_all serial cobs sim_digests cobs_laws file good_line sent

run_command-broken_example :
    (cs : List Bytes) × (joined cs ≡ file)
    × (1 < length cs)
    × ((run_command serial cobs sim_digests Command.update_app file bad_line).0.written
        ≡ (2 ∷ []) ∷ take 2 (frames serial cobs sim_digests cobs_laws 0 cs))
unfolding cobs_laws
run_command-broken_example =
    run_command-broken serial cobs sim_digests cobs_laws file bad_line 1 refused
