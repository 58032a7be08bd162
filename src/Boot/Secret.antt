-- ===== src/Boot/Secret.antt =====
-- The challenge secret: `write_secret` of bootloader/src/verify.rs, the arms `ChallengeSet` and
-- `ChallengeRequest` of bootloader/src/main.rs, and `hmac_challenge_response` of
-- firmware/src/comms.rs. A word is a number below 2^32.
pub mod Registers
pub mod Sealing
use prime_ble_firmware.Base.{
  ℕ, zero, suc, ◌+◌, ◌-◌, ◌/◌, ◌%◌, ◌^◌, Bool, true, false, not, ◌&&◌, ◌||◌, List, [], ◌∷◌, Option,
  none, some, ◌==◌, if◌then◌else◌, all, replicate,
}
use prime_ble_firmware.Consts.{
  uicr_seal_index, uicr_sealed_secret, uicr_sealed_wiped, uicr_secret_start, uicr_secret_size,
  u32_mod,
}
use prime_ble_firmware.Protocol.{Bytes, SecretSaveResponse, HostProtocolMessage}
use prime_ble_firmware.Platform.{Uicr, Digests}

-- `u64::to_be_bytes`.
abbrev pub be_bytes : ℕ → ℕ → Bytes
be_bytes zero n = []
be_bytes (suc k) n = (n / 256 ^ k) % 256 ∷ be_bytes k n

-- `[0xFF; 32]`.
abbrev pub no_answer : Bytes
no_answer = replicate 32 255

module _ (u : Uicr) where
  -- `for (i, secret) in secret.iter().enumerate() { uicr.customer[i].write(secret) }`, from `i` on.
  unfoldable pub write_words : u.Regs → ℕ → List ℕ → u.Regs
  write_words r i [] = r
  write_words r i (word ∷ rest) = write_words (u.write_customer r i word) (i + 1) rest

  -- The loop that reads back: it returns false at the first word that differs.
  unfoldable pub words_match : u.Regs → ℕ → List ℕ → Bool
  words_match r i [] = true
  words_match r i (word ∷ rest) = u.customer r i == word && words_match r (i + 1) rest

  -- Writes enabled, the words written, writes disabled.
  unfoldable pub program_secret : u.Regs → List ℕ → u.Regs
  unfolding write_words
  program_secret r secret =
      let enabled = u.wait_ready (u.config_wen r) in
      let written = u.wait_ready (write_words enabled 0 secret) in
      u.wait_ready (u.config_reset written)

  unfoldable pub program_seal : u.Regs → ℕ → u.Regs
  program_seal r seal =
      let enabled = u.wait_ready (u.config_wen r) in
      let written = u.wait_ready (u.write_customer enabled uicr_seal_index seal) in
      u.wait_ready (u.config_reset written)

  unfoldable pub write_secret : u.Regs → List ℕ → ℕ → u.Regs × Bool
  unfolding program_secret program_seal words_match
  write_secret r secret seal =
      let written = program_secret r secret in
      if words_match written 0 secret then (program_seal written seal, true) else (written, false)

  -- The registers and the variable `seal` of the main loop.
  pub record Vault : Type 0 where
    pub regs : u.Regs
    pub seal : ℕ

  unfoldable pub challenge_set : Vault → List ℕ → Vault × SecretSaveResponse
  challenge_set v secret =
      let saved = write_secret v.regs secret uicr_sealed_secret in
      if v.seal == uicr_sealed_secret || v.seal == uicr_sealed_wiped
      then (v, SecretSaveResponse.not_allowed)
      else if all (λ word. word == 0) secret || all (λ word. word == (u32_mod - 1)) secret
      then (v, SecretSaveResponse.error)
      else if saved.1
      then (record { regs = saved.0; seal = uicr_sealed_secret }, SecretSaveResponse.sealed)
      else (record v { regs = saved.0 }, SecretSaveResponse.error)

  module _ (d : Digests) where
    mac_or_no_answer : Option Bytes → HostProtocolMessage
    mac_or_no_answer (some mac) = HostProtocolMessage.challenge_result mac
    mac_or_no_answer none = HostProtocolMessage.challenge_result no_answer

    -- The bootloader asks the variable that it read at the start and keeps up to date.
    unfoldable pub challenge_request : Vault → ℕ → HostProtocolMessage
    unfolding mac_or_no_answer
    challenge_request v nonce =
        if v.seal == uicr_sealed_secret
        then mac_or_no_answer
            (d.hmac_sha256 (u.raw v.regs uicr_secret_start uicr_secret_size) (be_bytes 8 nonce))
        else HostProtocolMessage.challenge_result no_answer

    -- The firmware reads the register each time.
    unfoldable pub hmac_challenge_response : u.Regs → ℕ → HostProtocolMessage
    unfolding mac_or_no_answer
    hmac_challenge_response r nonce =
        let seal : ℕ = u.customer r uicr_seal_index in
        if not (seal == uicr_sealed_secret)
        then HostProtocolMessage.challenge_result no_answer
        else mac_or_no_answer
            (d.hmac_sha256 (u.raw r uicr_secret_start uicr_secret_size) (be_bytes 8 nonce))
