-- ===== src/Boot/Session/Reach.antt =====
-- The states of the loop of bootloader/src/main.rs between two rounds, and induction over them.
use prime_ble_firmware.Base.{
  ℕ, ◌≤◌, ◌≡◌, refl, sym, subst, [], ◌∷◌, Option, none, some, arith, length,
}
use prime_ble_firmware.Protocol.{Bytes, Bootloader, HostProtocolMessage}
use prime_ble_firmware.Platform.{Codec}
use prime_ble_firmware.Boot.Memory.Bounds.{block_max}
use prime_ble_firmware.Boot.Session.{
  Board, Loader, Outcome, SpiRead, Turn, handle, round, finish, handle_read,
}

-- A message that postcard made of `n` bytes: a block is a part of them, a secret has eight words.
abbrev pub Fits : ℕ → HostProtocolMessage → Type 0
Fits n (HostProtocolMessage.bootloader (Bootloader.write_firmware_block idx block)) =
    length block ≤ n
Fits n (HostProtocolMessage.bootloader (Bootloader.challenge_set secret)) = length secret ≡ 8
Fits n _ = Unit {0}

pub record DecodeLaws (c : Codec) : Type 0 where
  pub from_bytes-Fits :
      (bs : Bytes) (m : HostProtocolMessage) → c.from_bytes bs ≡ some m → Fits (length bs) m

-- A read fills at most `raw_buf`.
abbrev pub InBuffer : SpiRead → Type 0
InBuffer SpiRead.failed = Unit {0}
InBuffer (SpiRead.received bs) = length bs ≤ block_max

-- The loaders that rounds of the loop lead to, as long as the loop goes on.
pub data Reach (b : Board) (s : Loader b) : Loader b → Type 0 where
  here : Reach b s s
  next :
      {t u : Loader b} (read : SpiRead) (frame : Option Bytes)
      → Reach b s t
      → InBuffer read
      → (round b read t).1 ≡ Turn.continues frame
      → u ≡ (round b read t).0
      → Reach b s u

module _ (b : Board) where
  finish-continues :
      (o : Outcome b) (frame : Option Bytes)
      → finish b o ≡ Turn.continues frame
      → (answer : Option HostProtocolMessage) × (o ≡ Outcome.responds answer)
  unfolding finish
  finish-continues (Outcome.responds answer) frame h = (answer, refl)
  finish-continues (Outcome.boots m entry) frame h = absurd (cc)
  finish-continues Outcome.resets frame h = absurd (cc)

  Fits-mono : (n : ℕ) (m : HostProtocolMessage) → n ≤ block_max → Fits n m → Fits block_max m
  Fits-mono n (HostProtocolMessage.bootloader (Bootloader.write_firmware_block idx block)) le f =
      omega arith
  Fits-mono n (HostProtocolMessage.bootloader (Bootloader.challenge_set secret)) le f = f
  Fits-mono n _ le f = tt

-- What every message that is answered within the loop keeps, the loop keeps.
module _ (b : Board) (decode_laws : DecodeLaws b.codec) (P : Loader b → Type 0)
    (step : (m : HostProtocolMessage) (s : Loader b) (answer : Option HostProtocolMessage)
      → Fits block_max m
      → (handle b m s).1 ≡ Outcome.responds answer
      → P s
      → P (handle b m s).0) where
  handle_read_keeps :
      (bs : Bytes) (o : Option HostProtocolMessage) (s : Loader b) (frame : Option Bytes)
      → length bs ≤ block_max
      → b.codec.from_bytes bs ≡ o
      → finish b (handle_read b o s).1 ≡ Turn.continues frame
      → P s
      → P (handle_read b o s).0
  unfolding handle_read
  handle_read_keeps bs none s frame n e h v = v
  handle_read_keeps bs (some m) s frame n e h v =
      let (answer, responded) = finish-continues b (handle b m s).1 frame h in
      step m s answer (Fits-mono b (length bs) m n (decode_laws.from_bytes-Fits bs m e)) responded v

  pub round_keeps :
      (read : SpiRead) (s : Loader b) (frame : Option Bytes)
      → InBuffer read
      → (round b read s).1 ≡ Turn.continues frame
      → P s
      → P (round b read s).0
  unfolding round
  round_keeps SpiRead.failed s frame n h v = v
  round_keeps (SpiRead.received []) s frame n h v = v
  round_keeps (SpiRead.received (x ∷ buf)) s frame n h v =
      handle_read_keeps (x ∷ buf) (b.codec.from_bytes (x ∷ buf)) s frame n refl h v

  pub Reach_induction : {s t : Loader b} → P s → Reach b s t → P t
  Reach_induction v here = v
  Reach_induction v (next read frame reach n h e) =
      subst P (sym e) (round_keeps read _ frame n h (Reach_induction v reach))
