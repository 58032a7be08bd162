-- ===== src/Xtask/Command/Toolchain.antt =====
-- The check of the toolchain of xtask/src/main.rs.
use prime_ble_firmware.Base.{
  ◌≡◌, ◌↔◌, refl, Bool, true, false, ◌||◌, Option, some, inl, inr, Option-cases, arith,
  if◌then◌else◌,
}
use Prim.Native.String.{String}
use text.Mathlib.Text.{◌==◌}
use prime_ble_firmware.Xtask.Task.{Host, World, Ending, continue_with, calls, ◌>>=◌}
use prime_ble_firmware.Base.Int.{pos}
use prime_ble_firmware.Xtask.Command.{
  is_yes, is_nix_toolchain, which_rustc, unless, confirm, found_rustc, check_toolchain_path,
}

module _ (h : Host) where
  -- Whether a test passes or the next line of the input is a yes.
  abbrev pub agreed : Bool → h.State → Bool
  agreed ok s = ok || is_yes (h.read_line s).1

  -- A line is read only if the test does not pass.
  abbrev pub asked : Bool → h.State → h.State
  asked ok s = if ok then s else (h.read_line s).0

  unless-confirm :
      (ok : Bool) (w : World h)
      → unless h ok (confirm h) w ≡ (
        record { host = asked ok w.host; log = w.log },
        if agreed ok w.host then Ending.returns tt else Ending.exits (pos 0),
      )
  unfolding unless confirm ◌>>=◌
  unless-confirm true w = refl
  unless-confirm false w = ground arith

  -- The check after the first question.
  check_from : World h × Ending (Unit {0}) → World h × Ending (Unit {0})
  check_from = continue_with (λ _. do
    output ← calls (h.output which_rustc)
    current_rustc ← found_rustc h output
    unless h (is_nix_toolchain current_rustc) (confirm h))

  IsOfficial : Bool → World h → Type 0
  IsOfficial official w =
      let found : h.State × Option (Bool × String) = h.output which_rustc (asked official w.host) in
      (agreed official w.host ≡ true)
      × (rustc : String) × (found.1 ≡ some (true, rustc))
      × (agreed (is_nix_toolchain rustc) found.0 ≡ true)

  check_from-returns :
      (official : Bool) (w : World h)
      → ((check_from (unless h official (confirm h) w)).1 ≡ Ending.returns tt)
        ↔ IsOfficial official w
  unfolding check_from found_rustc IsOfficial ◌>>=◌
  check_from-returns official w =
      let found : h.State × Option (Bool × String) = h.output which_rustc (asked official w.host) in
      let w1 : World h = record { host = found.0; log = w.log } in
      elim (Option-cases found.1) [
        | inl e ↦
            (λ e'. absurd (ground (arith, unless-confirm official w)), λ c. absurd (ground arith))
        | inr ((false, rustc), e) ↦
            (λ e'. absurd (ground (arith, unless-confirm official w)), λ c. absurd (ground arith))
        | inr ((true, rustc), e) ↦ (
          λ e'. (
            ground (arith, unless-confirm official w),
            rustc,
            e,
            ground (arith, unless-confirm official w, unless-confirm (is_nix_toolchain rustc) w1),
          ),
          λ c.
              ground (arith, unless-confirm official w, unless-confirm (is_nix_toolchain rustc) w1),
        )
      ]

  -- The build goes on exactly if the machine is an x86_64 or the user says yes to the first
  -- question, a compiler is found, and it is one of the nix store or the user says yes to the
  -- second question.
  check_toolchain_path-returns :
      (w : World h)
      → let official : Bool = h.arch == "x86_64" in
        let found : h.State × Option (Bool × String) =
          h.output which_rustc (asked official w.host) in
        ((check_toolchain_path h w).1 ≡ Ending.returns tt) ↔ (
          (agreed official w.host ≡ true)
          × (rustc : String) × (found.1 ≡ some (true, rustc))
          × (agreed (is_nix_toolchain rustc) found.0 ≡ true))
  unfolding check_toolchain_path check_from IsOfficial ◌>>=◌
  check_toolchain_path-returns w = check_from-returns (h.arch == "x86_64") w
