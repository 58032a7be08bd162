-- ===== src/Boot/Secret/Sealing.antt =====
-- What the arm `ChallengeSet` of bootloader/src/main.rs leaves in the registers and in the variable
-- `seal`, and what a challenge is then answered with.
use prime_ble_firmware.Base.{
  ℕ, ◌-◌, ◌<◌, ◌≡◌, ap, ◌∙◌, ◌⊎◌, false, List, arith, ◌==◌, length, get_or, all,
}
use prime_ble_firmware.Base.Bits.{and_word, and_word_ones}
use prime_ble_firmware.Consts.{uicr_seal_index, uicr_sealed_secret, uicr_sealed_wiped, u32_mod}
use prime_ble_firmware.Protocol.{SecretSaveResponse}
use prime_ble_firmware.Platform.{Uicr, UicrLaws, Digests}
use prime_ble_firmware.Boot.Secret.{
  Vault, challenge_set, challenge_request, hmac_challenge_response,
}
use prime_ble_firmware.Boot.Secret.Registers.{
  write_secret-true, write_secret-false, write_secret_fits,
}

module _ (u : Uicr) where
  -- The seal that the bootloader remembers is the one in the register, and it is an erased, a
  -- sealed or a wiped one.
  pub record Synced (v : Vault u) : Type 0 where
    pub same : v.seal ≡ u.customer v.regs uicr_seal_index
    pub known :
        (v.seal ≡ u32_mod - 1) ⊎ (v.seal ≡ uicr_sealed_secret) ⊎ (v.seal ≡ uicr_sealed_wiped)

module _ (u : Uicr) (laws : UicrLaws u) where
  -- On a chip whose customer registers are erased, and whose seal has been read, a secret of eight
  -- words that is neither all zeros nor all ones is accepted: the registers hold its words, and
  -- both the register of the seal and the variable say sealed.
  pub challenge_set_fresh :
      (v : Vault u) (secret : List ℕ) (i : ℕ)
      → ((j : ℕ) → u.customer v.regs j ≡ u32_mod - 1)
      → v.seal ≡ u.customer v.regs uicr_seal_index
      → length secret ≡ 8
      → ((j : ℕ) → get_or secret j 0 < u32_mod)
      → all (λ word. word == 0) secret ≡ false
      → all (λ word. word == (u32_mod - 1)) secret ≡ false
      → i < 8
      → let (w, reply) = challenge_set u v secret in
        (reply ≡ SecretSaveResponse.sealed)
        × (u.customer w.regs i ≡ get_or secret i 0)
        × (u.customer w.regs uicr_seal_index ≡ uicr_sealed_secret)
        × (w.seal ≡ uicr_sealed_secret)
  unfolding challenge_set and_word
  challenge_set_fresh v secret i erased read n words not_zeros not_ones lt =
      let done = write_secret_fits u laws v.regs secret uicr_sealed_secret taken in
      let (word, seal) = write_secret-true u laws v.regs secret uicr_sealed_secret i n lt done in
      let sealed = seal ∙ ap (λ w. and_word 32 w uicr_sealed_secret) (erased uicr_seal_index) in
      ground (arith, done, word, sealed, read, erased uicr_seal_index)
    where
      taken :
          (j : ℕ)
          → j < length secret
          → and_word 32 (u.customer v.regs j) (get_or secret j 0) ≡ get_or secret j 0
      taken j below =
          and_word_ones 32 (u.customer v.regs j) (get_or secret j 0) (omega (arith, erased j))
            (words j)

  -- `ChallengeSet` keeps the variable in step with the register, whatever happens to the words.
  pub challenge_set-Synced :
      (v : Vault u) (secret : List ℕ)
      → length secret ≡ 8
      → Synced u v
      → Synced u (challenge_set u v secret).0
  unfolding challenge_set
  challenge_set-Synced v secret n s = ground (
    arith,
    write_secret-false u laws v.regs secret uicr_sealed_secret n,
    write_secret-true u laws v.regs secret uicr_sealed_secret 0 n,
    and_word_ones 32 (u.customer v.regs uicr_seal_index) uicr_sealed_secret,
  )

module _ (u : Uicr) (d : Digests) where
  -- While the variable is the register's value, the bootloader and the firmware answer a challenge
  -- alike.
  pub challenge_agreement :
      (v : Vault u) (nonce : ℕ)
      → v.seal ≡ u.customer v.regs uicr_seal_index
      → challenge_request u d v nonce ≡ hmac_challenge_response u d v.regs nonce
  unfolding challenge_request hmac_challenge_response
  challenge_agreement v nonce same = ground arith
