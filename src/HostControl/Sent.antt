-- ===== src/HostControl/Sent.antt =====
-- Which frames host-protocol/examples/host_control.rs writes in an update.
use prime_ble_firmware.Base.{
  ℕ, zero, suc, ◌+◌, ◌≤◌, ◌≡◌, refl, ap, ◌∙◌, Bool, List, [], ◌∷◌, ◌++◌, Option, none, some, arith,
  length, take, drop, chunks, length-drop, length-take, append-take-drop,
}
use prime_ble_firmware.Protocol.{Bytes, Bootloader, HostProtocolMessage}
use prime_ble_firmware.Platform.{Digests}
use prime_ble_firmware.HostControl.{
  chunk_size, Reading, Serial, Cobs, CobsLaws, Ending, Line, put, send, receive, decode, answered,
  chunk_answer, chunk_sent, send_chunk,
}

-- The chunks end to end.
abbrev pub joined : List Bytes → Bytes
joined [] = []
joined (chunk ∷ rest) = chunk ++ joined rest

abbrev pub AreShort : List Bytes → Type 0
AreShort [] = Unit {0}
AreShort (chunk ∷ rest) = (length chunk ≤ chunk_size) × AreShort rest

pub joined-chunks :
    (n fuel : ℕ) (file : Bytes) → length file ≤ fuel → joined (chunks (suc n) fuel file) ≡ file
unfolding chunks
joined-chunks n zero [] le = refl
joined-chunks n zero (x ∷ file) le = absurd (omega arith)
joined-chunks n (suc fuel) [] le = refl
joined-chunks n (suc fuel) (x ∷ file) le =
    let xs : Bytes = x ∷ file in
    ap (take (suc n) xs ++◌)
      (joined-chunks n fuel (drop (suc n) xs) (omega (arith, length-drop (suc n) xs)))
    ∙ append-take-drop (suc n) xs

pub chunks-AreShort : (fuel : ℕ) (file : Bytes) → AreShort (chunks chunk_size fuel file)
unfolding chunks
chunks-AreShort zero file = tt
chunks-AreShort (suc fuel) [] = tt
chunks-AreShort (suc fuel) (x ∷ file) = (
  omega (arith, length-take chunk_size (x ∷ file)),
  chunks-AreShort fuel (drop chunk_size (x ∷ file)),
)

module _ (s : Serial) (c : Cobs) (d : Digests) (laws : CobsLaws c) where
  abbrev pub block : ℕ → Bytes → HostProtocolMessage
  block idx chunk = HostProtocolMessage.bootloader (Bootloader.write_firmware_block idx chunk)

  -- The frames of the chunks, numbered from `idx` on.
  abbrev pub frames : ℕ → List Bytes → List Bytes
  frames idx [] = []
  frames idx (chunk ∷ rest) = laws.encode (block idx chunk) ∷ frames (idx + 1) rest

  put-written :
      (m : HostProtocolMessage) (l : Line s c d) (o : Option (Bytes × ℕ)) (a : Unit {0})
      → c.to_slice_cobs m l.buf ≡ o
      → (put s c d l o).1 ≡ Ending.returns a
      → (put s c d l o).0.written ≡ l.written ++ laws.encode m ∷ []
  unfolding put
  put-written m l none a e h = absurd (cc)
  put-written m l (some (buf, n)) a e h = ground (arith, laws.encoded m l.buf buf n e)

  pub send-written :
      (m : HostProtocolMessage) (l : Line s c d) (a : Unit {0})
      → (send s c d m l).1 ≡ Ending.returns a
      → (send s c d m l).0.written ≡ l.written ++ laws.encode m ∷ []
  unfolding send
  send-written m l a h = put-written m l (c.to_slice_cobs m l.buf) a refl h

  answered-written :
      (idx crc_pkt : ℕ) (r : Line s c d × Ending HostProtocolMessage)
      → (answered s c d idx crc_pkt r).0 ≡ r.0
  unfolding answered
  answered-written idx crc_pkt (l, Ending.returns m) = refl
  answered-written idx crc_pkt (l, Ending.fails) = refl
  answered-written idx crc_pkt (l, Ending.panics) = refl

  chunk_answer-written :
      (idx crc_pkt : ℕ) (r : Line s c d × Reading)
      → (chunk_answer s c d idx crc_pkt r).0.written ≡ r.0.written
  unfolding chunk_answer decode
  chunk_answer-written idx crc_pkt (l, Reading.received) =
      ap (λ t. t.written) (answered-written idx crc_pkt (decode s c d l))
  chunk_answer-written idx crc_pkt (l, Reading.read_failed) = refl
  chunk_answer-written idx crc_pkt (l, Reading.timed_out) = refl

  chunk_sent-written :
      (idx : ℕ) (chunk : Bytes) (before : List Bytes) (r : Line s c d × Ending (Unit {0}))
      (go : Bool)
      → ((a : Unit {0}) → r.1 ≡ Ending.returns a → r.0.written ≡ before)
      → (chunk_sent s c d idx chunk r).1 ≡ Ending.returns go
      → (chunk_sent s c d idx chunk r).0.written ≡ before
  unfolding chunk_sent receive
  chunk_sent-written idx chunk before (l, Ending.returns a) go hr h =
      chunk_answer-written idx (d.crc32_iscsi chunk) (receive s c d 100 l) ∙ hr a refl
  chunk_sent-written idx chunk before (l, Ending.fails) go hr h = absurd (cc)
  chunk_sent-written idx chunk before (l, Ending.panics) go hr h = absurd (cc)

  pub send_chunk-written :
      (idx : ℕ) (chunk : Bytes) (l : Line s c d) (go : Bool)
      → (send_chunk s c d idx chunk l).1 ≡ Ending.returns go
      → (send_chunk s c d idx chunk l).0.written ≡ l.written ++ laws.encode (block idx chunk) ∷ []
  unfolding send_chunk
  send_chunk-written idx chunk l go h =
      chunk_sent-written idx chunk _ (send s c d (block idx chunk) l) go
        (send-written (block idx chunk) l) h
