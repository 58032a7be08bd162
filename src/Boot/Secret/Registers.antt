-- ===== src/Boot/Secret/Registers.antt =====
-- What `write_secret` of bootloader/src/verify.rs leaves in the registers.
use prime_ble_firmware.Base.{
  ℕ, zero, suc, ◌+◌, ◌-◌, ◌<◌, ◌≡◌, refl, ap, ◌∙◌, true, false, ◌&&◌, List, [], ◌∷◌, arith, ltb,
  leb, ◌==◌, if◌then◌else◌, length, get_or, get_or-cons, get_or-replicate, replicate,
}
use prime_ble_firmware.Base.Bits.{and_word, and_word-zero}
use prime_ble_firmware.Consts.{uicr_seal_index, uicr_sealed_secret, uicr_sealed_wiped}
use prime_ble_firmware.Platform.{Uicr, UicrLaws}
use prime_ble_firmware.Boot.Secret.{
  write_words, words_match, program_secret, program_seal, write_secret,
}

module _ (u : Uicr) where
  -- A match of all words is a match of each.
  words_match-get_or :
      (r : u.Regs) (i : ℕ) (words : List ℕ) (j : ℕ)
      → words_match u r i words ≡ true
      → j < length words
      → u.customer r (i + j) ≡ get_or words j 0
  unfolding words_match
  words_match-get_or r i [] j h lt = absurd (omega arith)
  words_match-get_or r i (word ∷ rest) zero h lt = ground arith
  words_match-get_or r i (word ∷ rest) (suc j) h lt =
      ground (arith, words_match-get_or r (i + 1) rest j)

  words_match_of :
      (r : u.Regs) (i : ℕ) (words : List ℕ)
      → ((j : ℕ) → j < length words → u.customer r (i + j) ≡ get_or words j 0)
      → words_match u r i words ≡ true
  unfolding words_match
  words_match_of r i [] h = refl
  words_match_of r i (word ∷ rest) h = ground (arith, h 0, words_match_of r (i + 1) rest shifted)
    where
      shifted : (j : ℕ) → j < length rest → u.customer r (i + 1 + j) ≡ get_or rest j 0
      shifted j lt = ap (u.customer r) (omega arith) ∙ h (suc j) (omega arith)

module _ (u : Uicr) (laws : UicrLaws u) where
  wen-write_words :
      (r : u.Regs) (i : ℕ) (words : List ℕ) → u.wen (write_words u r i words) ≡ u.wen r
  unfolding write_words
  wen-write_words r i [] = refl
  wen-write_words r i (word ∷ rest) =
      wen-write_words (u.write_customer r i word) (i + 1) rest ∙ laws.wen-write_customer r i word

  customer-write_words :
      (r : u.Regs) (i : ℕ) (words : List ℕ) (j : ℕ)
      → u.wen r ≡ true
      → u.customer (write_words u r i words) j ≡ (
          if leb i j && ltb j (i + length words)
          then and_word 32 (u.customer r j) (get_or words (j - i) 0)
          else u.customer r j)
  unfolding write_words
  customer-write_words r i [] j w = ground arith
  customer-write_words r i (word ∷ rest) j w = ground (
    arith,
    get_or-cons word rest (j - i) 0,
    customer-write_words (u.write_customer r i word) (i + 1) rest j,
    laws.wen-write_customer r i word,
    laws.customer-write_self r i word w,
    laws.customer-write_ne r i j word,
  )

  -- The words of the secret are cleared into their registers, and no other register changes.
  customer-program_secret :
      (r : u.Regs) (secret : List ℕ) (j : ℕ)
      → u.customer (program_secret u r secret) j ≡ (
          if ltb j (length secret)
          then and_word 32 (u.customer r j) (get_or secret j 0)
          else u.customer r j)
  unfolding program_secret
  customer-program_secret r secret j =
      let enabled = u.wait_ready (u.config_wen r) in
      let written = u.wait_ready (write_words u enabled 0 secret) in
      ground (
        arith,
        laws.customer-wait_ready (u.config_reset written) j,
        laws.customer-config_reset written j,
        laws.customer-wait_ready (write_words u enabled 0 secret) j,
        customer-write_words enabled 0 secret j,
        laws.customer-wait_ready (u.config_wen r) j,
        laws.customer-config_wen r j,
        laws.wen-wait_ready (u.config_wen r),
        laws.wen-config_wen r,
      )

  customer-program_seal :
      (r : u.Regs) (seal j : ℕ)
      → u.customer (program_seal u r seal) j
        ≡ (if j == uicr_seal_index then and_word 32 (u.customer r j) seal else u.customer r j)
  unfolding program_seal
  customer-program_seal r seal j =
      let enabled = u.wait_ready (u.config_wen r) in
      let written = u.write_customer enabled uicr_seal_index seal in
      ground (
        arith,
        laws.customer-wait_ready (u.config_reset (u.wait_ready written)) j,
        laws.customer-config_reset (u.wait_ready written) j,
        laws.customer-wait_ready written j,
        laws.customer-write_self enabled uicr_seal_index seal,
        laws.customer-write_ne enabled uicr_seal_index j seal,
        laws.customer-wait_ready (u.config_wen r) j,
        laws.customer-config_wen r j,
        laws.wen-wait_ready (u.config_wen r),
        laws.wen-config_wen r,
      )

  -- If `write_secret` of eight words returns true, the registers hold the words, and the register
  -- of the seal has lost the bits that the seal does not have.
  pub write_secret-true :
      (r : u.Regs) (secret : List ℕ) (seal i : ℕ)
      → length secret ≡ 8
      → i < 8
      → (write_secret u r secret seal).1 ≡ true
      → (u.customer (write_secret u r secret seal).0 i ≡ get_or secret i 0)
        × (u.customer (write_secret u r secret seal).0 uicr_seal_index
            ≡ and_word 32 (u.customer r uicr_seal_index) seal)
  unfolding write_secret
  write_secret-true r secret seal i n lt h =
      let written = program_secret u r secret in
      ground (
        arith,
        words_match-get_or u written 0 secret i,
        customer-program_seal written seal i,
        customer-program_seal written seal uicr_seal_index,
        customer-program_secret r secret uicr_seal_index,
      )

  -- If `write_secret` of eight words returns false, the register of the seal is untouched.
  pub write_secret-false :
      (r : u.Regs) (secret : List ℕ) (seal : ℕ)
      → length secret ≡ 8
      → (write_secret u r secret seal).1 ≡ false
      → u.customer (write_secret u r secret seal).0 uicr_seal_index ≡ u.customer r uicr_seal_index
  unfolding write_secret
  write_secret-false r secret seal n h =
      ground (arith, customer-program_secret r secret uicr_seal_index)

  -- `write_secret` returns true when no word needs a bit that its register has lost.
  pub write_secret_fits :
      (r : u.Regs) (secret : List ℕ) (seal : ℕ)
      → ((j : ℕ)
          → j < length secret
          → and_word 32 (u.customer r j) (get_or secret j 0) ≡ get_or secret j 0)
      → (write_secret u r secret seal).1 ≡ true
  unfolding write_secret
  write_secret_fits r secret seal fits =
      ground (arith, words_match_of u (program_secret u r secret) 0 secret kept)
    where
      kept :
          (j : ℕ)
          → j < length secret
          → u.customer (program_secret u r secret) (0 + j) ≡ get_or secret j 0
      kept j lt = ground (arith, customer-program_secret r secret j, fits j lt)

  -- Wiping a sealed secret cannot fail: whatever the registers hold, `write_secret` of zeros makes
  -- them read zero, and the seal, which said sealed, says wiped.
  pub write_secret_wipe :
      (r : u.Regs) (i : ℕ)
      → i < 8
      → u.customer r uicr_seal_index ≡ uicr_sealed_secret
      → let w = write_secret u r (replicate 8 0) uicr_sealed_wiped in
        (w.1 ≡ true) × (u.customer w.0 i ≡ 0) × (u.customer w.0 uicr_seal_index ≡ uicr_sealed_wiped)
  unfolding and_word
  write_secret_wipe r i lt sealed =
      let done = write_secret_fits r (replicate 8 0) uicr_sealed_wiped cleared in
      let (zero_word, seal) =
        write_secret-true r (replicate 8 0) uicr_sealed_wiped i refl lt done in
      (
        done,
        zero_word ∙ get_or-replicate {A = ℕ} 8 0 i,
        seal ∙ ap (λ w. and_word 32 w uicr_sealed_wiped) sealed,
      )
    where
      cleared :
          (j : ℕ)
          → j < 8
          → and_word 32 (u.customer r j) (get_or (replicate 8 0) j 0) ≡ get_or (replicate 8 0) j 0
      cleared j below = rw (get_or-replicate {A = ℕ} 8 0 j) (and_word-zero 32 (u.customer r j))
