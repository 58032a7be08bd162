-- ===== src/Device/Secret.antt =====
-- The challenge secret over the life of the chip: `ChallengeSet`, `BootFirmware` and
-- `ChallengeRequest` of bootloader/src/main.rs, and `hmac_challenge_response` of
-- firmware/src/comms.rs.
use prime_ble_firmware.Base.{ℕ, ◌<◌, ◌≡◌, refl, sym, subst, ap, ◌∙◌, ◌⊎◌, inl, inr, arith, Option}
use prime_ble_firmware.Consts.{uicr_seal_index, uicr_sealed_secret, uicr_sealed_wiped}
use prime_ble_firmware.Protocol.{Bytes, TrustLevel}
use prime_ble_firmware.Platform.{UicrLaws, Uicr}
use prime_ble_firmware.Boot.Secret.Registers.{write_secret_wipe}
use prime_ble_firmware.Boot.Secret.Sealing.{Synced}
use prime_ble_firmware.Boot.Protect.{Entry}
use prime_ble_firmware.Boot.Session.{
  Board, Loader, Outcome, SpiRead, Turn, handle, round, clear_secret,
}
use prime_ble_firmware.Boot.Session.Launch.{handle-boots, handle-boots_vault}
use prime_ble_firmware.Boot.Session.Exits.{round-boots}
use prime_ble_firmware.Boot.Session.Reach.{DecodeLaws, InBuffer, round_keeps}
use prime_ble_firmware.Boot.Session.Invariant.{handle-vault}

module _ (u : Uicr) where
  -- The seal says wiped, and the words of the secret read zero.
  pub record IsWiped (r : u.Regs) : Type 0 where
    pub seal : u.customer r uicr_seal_index ≡ uicr_sealed_wiped
    pub words : (i : ℕ) → i < 8 → u.customer r i ≡ 0

  -- How the registers may go on: wiped ones stay as they are, and sealed ones stay as they are or
  -- are wiped.
  pub record Forward (r q : u.Regs) : Type 0 where
    pub wiped : u.customer r uicr_seal_index ≡ uicr_sealed_wiped → q ≡ r
    pub sealed : u.customer r uicr_seal_index ≡ uicr_sealed_secret → (q ≡ r) ⊎ IsWiped q

  pub Forward-same : (r q : u.Regs) → q ≡ r → Forward r q
  Forward-same r q e = record { wiped = λ h. e; sealed = λ h. inl e }

  pub Forward-trans : (r q p : u.Regs) → Forward r q → Forward q p → Forward r p
  Forward-trans r q p f g = record {
    wiped = λ h. g.wiped (ap (λ x. u.customer x uicr_seal_index) (f.wiped h) ∙ h) ∙ f.wiped h;
    sealed = λ h. after h (f.sealed h);
  }
    where
      after :
          u.customer r uicr_seal_index ≡ uicr_sealed_secret
          → (q ≡ r) ⊎ IsWiped q
          → (p ≡ r) ⊎ IsWiped p
      after h (inl e) =
          subst (λ x. (p ≡ x) ⊎ IsWiped p) e
            (g.sealed (ap (λ x. u.customer x uicr_seal_index) e ∙ h))
      after h (inr w) = inr (subst IsWiped (sym (g.wiped w.seal)) w)

module _ (b : Board) (laws : UicrLaws b.uicr) where
  clear_secret-Forward :
      (trust : TrustLevel) (s : Loader b)
      → Synced b.uicr s.vault
      → Forward b.uicr s.vault.regs (clear_secret b trust s.vault).regs
  unfolding clear_secret
  clear_secret-Forward TrustLevel.full s synced = Forward-same b.uicr s.vault.regs _ (ground arith)
  clear_secret-Forward TrustLevel.developer s synced = record {
    wiped = λ h. ground (arith, synced.same);
    sealed = λ h. inr (record {
      seal = ground (arith, synced.same, write_secret_wipe b.uicr laws s.vault.regs 0);
      words = λ i lt. ground (arith, synced.same, write_secret_wipe b.uicr laws s.vault.regs i lt);
    });
  }

  -- A launch keeps the secret or wipes it.
  pub round-Forward :
      (read : SpiRead) (s : Loader b) (frame : Option Bytes) (entry : Entry)
      → (round b read s).1 ≡ Turn.enters frame entry
      → Synced b.uicr s.vault
      → Forward b.uicr s.vault.regs (round b read s).0.vault.regs
  round-Forward read s frame entry h synced =
      let (m, r, booted, same) = round-boots b read s frame entry h in
      let (trust, _, request, _, _, _, _, _) = handle-boots b m r s entry booted in
      subst (λ t. Forward b.uicr s.vault.regs t.vault.regs) (sym same)
        (subst
          (λ q.
            (handle b q s).1 ≡ Outcome.boots r entry
            → Forward b.uicr s.vault.regs (handle b q s).0.vault.regs)
          (sym request)
          (λ e.
            subst (λ v. Forward b.uicr s.vault.regs v.regs)
              (sym (handle-boots_vault b trust s r entry e)) (clear_secret-Forward trust s synced))
          booted)

  -- A round that goes on changes no sealed and no wiped registers.
  pub round_vault :
      (decode_laws : DecodeLaws b.codec) (read : SpiRead) (s : Loader b) (frame : Option Bytes)
      → InBuffer read
      → (round b read s).1 ≡ Turn.continues frame
      → Synced b.uicr s.vault
      → Forward b.uicr s.vault.regs (round b read s).0.vault.regs
  round_vault decode_laws read s frame n h synced = record {
    wiped = λ e. unchanged (inr (synced.same ∙ e));
    sealed = λ e. inl (unchanged (inl (synced.same ∙ e)));
  }
    where
      unchanged :
          (s.vault.seal ≡ uicr_sealed_secret) ⊎ (s.vault.seal ≡ uicr_sealed_wiped)
          → (round b read s).0.vault.regs ≡ s.vault.regs
      unchanged locked =
          ap (λ v. v.regs)
            (round_keeps b decode_laws (λ l. l.vault ≡ s.vault)
              (handle-vault b decode_laws s.vault locked) read s frame n h refl)
