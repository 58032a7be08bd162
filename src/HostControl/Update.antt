-- ===== src/HostControl/Update.antt =====
-- What an update by host-protocol/examples/host_control.rs has written when it ends.
use prime_ble_firmware.Base.{
  ℕ, suc, ◌+◌, ◌-◌, ◌≤◌, ◌<◌, ◌≡◌, refl, sym, ap, ◌∙◌, ◌⊎◌, inl, inr, Bool, true, false, List, [],
  ◌∷◌, ◌++◌, arith, length, take, chunks,
}
use mathlib.Core.List.{append_assoc, append-nil}
use prime_ble_firmware.Protocol.{Bytes, Bootloader, HostProtocolMessage}
use prime_ble_firmware.Platform.{Digests}
use prime_ble_firmware.HostControl.{
  chunk_size, Command, Reading, Serial, Cobs, CobsLaws, Ending, Report, Line, send, receive, decode,
  send_chunk, proceed, send_chunks, on_answer, command_answer, command_sent, run_command,
  command_message,
}
use prime_ble_firmware.HostControl.Sent.{
  joined, AreShort, joined-chunks, chunks-AreShort, block, frames, send-written, send_chunk-written,
}

-- The reports that only the loop over the chunks makes.
abbrev ends_loop : Report → Bool
ends_loop Report.no_response = false
ends_loop (Report.printed m) = false
ends_loop Report.sent_all = true
ends_loop (Report.broken n) = true

module _ (s : Serial) (c : Cobs) (d : Digests) where
  proceed-sent_all :
      (idx : ℕ) (others : Line s c d × Ending Report) (r : Line s c d × Ending Bool)
      → (proceed s c d idx others r).1 ≡ Ending.returns Report.sent_all
      → (r.1 ≡ Ending.returns true) × (proceed s c d idx others r ≡ others)
  unfolding proceed
  proceed-sent_all idx others (l, Ending.returns true) h = (refl, refl)
  proceed-sent_all idx others (l, Ending.returns false) h = absurd (cc)
  proceed-sent_all idx others (l, Ending.fails) h = absurd (cc)
  proceed-sent_all idx others (l, Ending.panics) h = absurd (cc)

  proceed-broken :
      (idx n : ℕ) (others : Line s c d × Ending Report) (r : Line s c d × Ending Bool)
      → (proceed s c d idx others r).1 ≡ Ending.returns (Report.broken n)
      → ((r.1 ≡ Ending.returns true) × (proceed s c d idx others r ≡ others))
        ⊎ ((r.1 ≡ Ending.returns false) × (n ≡ idx) × ((proceed s c d idx others r).0 ≡ r.0))
  unfolding proceed
  proceed-broken idx n others (l, Ending.returns true) h = inl (refl, refl)
  proceed-broken idx n others (l, Ending.returns false) h = inr (refl, cc, refl)
  proceed-broken idx n others (l, Ending.fails) h = absurd (cc)
  proceed-broken idx n others (l, Ending.panics) h = absurd (cc)

  on_answer-loop :
      (update_file : Bytes) (r : Line s c d × Ending HostProtocolMessage) (report : Report)
      → (on_answer s c d Command.update_app update_file r).1 ≡ Ending.returns report
      → ends_loop report ≡ true
      → on_answer s c d Command.update_app update_file r
        ≡ send_chunks s c d 0 (chunks chunk_size (length update_file) update_file) r.0
  unfolding on_answer
  on_answer-loop update_file (l, Ending.returns (HostProtocolMessage.bootloader x)) report h e =
      ground arith
  on_answer-loop update_file (l, Ending.returns m) report h e = ground arith
  on_answer-loop update_file (l, Ending.fails) report h e = absurd (cc)
  on_answer-loop update_file (l, Ending.panics) report h e = absurd (cc)

  module _ (laws : CobsLaws c) where
    send_chunks-sent_all :
        (idx : ℕ) (cs : List Bytes) (l : Line s c d)
        → (send_chunks s c d idx cs l).1 ≡ Ending.returns Report.sent_all
        → (send_chunks s c d idx cs l).0.written ≡ l.written ++ frames s c d laws idx cs
    unfolding send_chunks
    send_chunks-sent_all idx [] l h = sym (append-nil l.written)
    send_chunks-sent_all idx (chunk ∷ rest) l h =
        let r = send_chunk s c d idx chunk l in
        let others = send_chunks s c d (idx + 1) rest r.0 in
        let (went, same) = proceed-sent_all idx others r h in
        ap (λ t. t.0.written) same
        ∙ send_chunks-sent_all (idx + 1) rest r.0 (sym (ap (λ t. t.1) same) ∙ h)
        ∙ ap (λ w. w ++ frames s c d laws (idx + 1) rest)
            (send_chunk-written s c d laws idx chunk l true went)
        ∙ append_assoc l.written (laws.encode (block s c d laws idx chunk) ∷ [])
            (frames s c d laws (idx + 1) rest)

    send_chunks-broken :
        (idx n : ℕ) (cs : List Bytes) (l : Line s c d)
        → (send_chunks s c d idx cs l).1 ≡ Ending.returns (Report.broken n)
        → (idx ≤ n)
          × (n < idx + length cs)
          × ((send_chunks s c d idx cs l).0.written
              ≡ l.written ++ take (suc (n - idx)) (frames s c d laws idx cs))
    unfolding send_chunks
    send_chunks-broken idx n [] l h = absurd (cc)
    send_chunks-broken idx n (chunk ∷ rest) l h =
        let r = send_chunk s c d idx chunk l in
        let others = send_chunks s c d (idx + 1) rest r.0 in
        elim (proceed-broken idx n others r h) [
          | inl (went, same) ↦
              let (from, to, out) =
                send_chunks-broken (idx + 1) n rest r.0 (sym (ap (λ t. t.1) same) ∙ h) in
              let later : suc (n - (idx + 1)) ≡ n - idx = omega arith in
              (
                omega arith,
                omega arith,
                ap (λ t. t.0.written) same
                    ∙ out
                    ∙ ap (λ k. r.0.written ++ take k (frames s c d laws (idx + 1) rest)) later
                    ∙ ap (λ w. w ++ take (n - idx) (frames s c d laws (idx + 1) rest))
                        (send_chunk-written s c d laws idx chunk l true went)
                    ∙ append_assoc l.written (laws.encode (block s c d laws idx chunk) ∷ [])
                        (take (n - idx) (frames s c d laws (idx + 1) rest)),
              )
          | inr (stopped, here, same) ↦
              let first : n - idx ≡ 0 = omega arith in
              (
                omega arith,
                omega arith,
                ap (λ t. t.written) same
                    ∙ send_chunk-written s c d laws idx chunk l false stopped
                    ∙ ap (λ k. l.written ++ take (suc k) (frames s c d laws idx (chunk ∷ rest)))
                        (sym first),
              )
        ]

    -- A run whose report the loop has made went into the loop with the frame of the erase written.
    record Looped (update_file : Bytes) (l : Line s c d) : Type 0 where
      line : Line s c d
      erased :
          line.written
          ≡ l.written ++ laws.encode (HostProtocolMessage.bootloader Bootloader.erase_firmware) ∷ []
      loops :
          run_command s c d Command.update_app update_file l
          ≡ send_chunks s c d 0 (chunks chunk_size (length update_file) update_file) line

    command_answer-loop :
        (update_file : Bytes) (l : Line s c d) (got : Reading) (report : Report)
        → (command_answer s c d Command.update_app update_file (l, got)).1 ≡ Ending.returns report
        → ends_loop report ≡ true
        → (line : Line s c d) × (line.written ≡ l.written)
          × (command_answer s c d Command.update_app update_file (l, got)
              ≡ send_chunks s c d 0 (chunks chunk_size (length update_file) update_file) line)
    unfolding command_answer decode
    command_answer-loop update_file l Reading.timed_out report h e = absurd (ground arith)
    command_answer-loop update_file l Reading.received report h e =
        ((decode s c d l).0, refl, on_answer-loop update_file (decode s c d l) report h e)
    command_answer-loop update_file l Reading.read_failed report h e =
        ((decode s c d l).0, refl, on_answer-loop update_file (decode s c d l) report h e)

    command_sent-Looped :
        (update_file : Bytes) (l : Line s c d) (r : Line s c d × Ending (Unit {0}))
        (report : Report)
        → ((a : Unit {0})
            → r.1 ≡ Ending.returns a
            → r.0.written
              ≡ l.written
                ++ laws.encode (HostProtocolMessage.bootloader Bootloader.erase_firmware) ∷ [])
        → (command_sent s c d Command.update_app update_file r).1 ≡ Ending.returns report
        → ends_loop report ≡ true
        → run_command s c d Command.update_app update_file l
          ≡ command_sent s c d Command.update_app update_file r
        → Looped update_file l
    unfolding command_sent receive
    command_sent-Looped update_file l (t, Ending.returns a) report sent h e same =
        let got = receive s c d 5000 t in
        let (line, kept, loops) = command_answer-loop update_file got.0 got.1 report h e in
        record { line = line; erased = kept ∙ sent a refl; loops = same ∙ loops }
    command_sent-Looped update_file l (t, Ending.fails) report sent h e same = absurd (cc)
    command_sent-Looped update_file l (t, Ending.panics) report sent h e same = absurd (cc)

    run_command-Looped :
        (update_file : Bytes) (l : Line s c d) (report : Report)
        → (run_command s c d Command.update_app update_file l).1 ≡ Ending.returns report
        → ends_loop report ≡ true
        → Looped update_file l
    unfolding run_command command_message
    run_command-Looped update_file l report h e =
        let erase = HostProtocolMessage.bootloader Bootloader.erase_firmware in
        command_sent-Looped update_file l (send s c d erase l) report
          (send-written s c d laws erase l) h e refl

    -- If the update command reports the whole file as sent, what it has written is the frame of
    -- `EraseFirmware` and then, numbered from 0 on, the frames of chunks of at most 256 bytes that
    -- joined end to end are the file.
    pub run_command-sent_all :
        (update_file : Bytes) (l : Line s c d)
        → (run_command s c d Command.update_app update_file l).1 ≡ Ending.returns Report.sent_all
        → (cs : List Bytes) × (joined cs ≡ update_file)
          × AreShort cs
          × ((run_command s c d Command.update_app update_file l).0.written
              ≡ l.written
                ++ laws.encode (HostProtocolMessage.bootloader Bootloader.erase_firmware)
                  ∷ frames s c d laws 0 cs)
    run_command-sent_all update_file l h =
        let u = run_command-Looped update_file l Report.sent_all h refl in
        let cs = chunks chunk_size (length update_file) update_file in
        let erase = HostProtocolMessage.bootloader Bootloader.erase_firmware in
        (
          cs,
          joined-chunks 255 (length update_file) update_file (omega arith),
          chunks-AreShort (length update_file) update_file,
          ap (λ t. t.0.written) u.loops
              ∙ send_chunks-sent_all 0 cs u.line (sym (ap (λ t. t.1) u.loops) ∙ h)
              ∙ ap (λ w. w ++ frames s c d laws 0 cs) u.erased
              ∙ append_assoc l.written (laws.encode erase ∷ []) (frames s c d laws 0 cs),
        )

    -- If the update command breaks off at a chunk, the file has such a chunk, and what was written is
    -- the frame of `EraseFirmware` and then the frames of the chunks up to that one.
    pub run_command-broken :
        (update_file : Bytes) (l : Line s c d) (n : ℕ)
        → (run_command s c d Command.update_app update_file l).1 ≡ Ending.returns (Report.broken n)
        → (cs : List Bytes) × (joined cs ≡ update_file)
          × (n < length cs)
          × ((run_command s c d Command.update_app update_file l).0.written
              ≡ l.written
                ++ laws.encode (HostProtocolMessage.bootloader Bootloader.erase_firmware)
                  ∷ take (suc n) (frames s c d laws 0 cs))
    run_command-broken update_file l n h =
        let u = run_command-Looped update_file l (Report.broken n) h refl in
        let cs = chunks chunk_size (length update_file) update_file in
        let erase = HostProtocolMessage.bootloader Bootloader.erase_firmware in
        let (from, to, out) = send_chunks-broken 0 n cs u.line (sym (ap (λ t. t.1) u.loops) ∙ h) in
        let whole : suc (n - 0) ≡ suc n = omega arith in
        (
          cs,
          joined-chunks 255 (length update_file) update_file (omega arith),
          omega arith,
          ap (λ t. t.0.written) u.loops
              ∙ out
              ∙ ap (λ k. u.line.written ++ take k (frames s c d laws 0 cs)) whole
              ∙ ap (λ w. w ++ take (suc n) (frames s c d laws 0 cs)) u.erased
              ∙ append_assoc l.written (laws.encode erase ∷ [])
                  (take (suc n) (frames s c d laws 0 cs)),
        )
