-- ===== src/Xtask/Command.antt =====
-- The commands of xtask/src/main.rs: the signing, the check of the toolchain, and `main`.
pub mod Succeeded
pub mod Signing
pub mod Image
pub mod Toolchain
use prime_ble_firmware.Base.{
  Bool, true, false, not, ◌&&◌, ◌||◌, List, [], ◌∷◌, ◌++◌, Option, none, some, if◌then◌else◌,
}
use Prim.Native.String.{String}
use text.Mathlib.Text.{◌==◌, find?}
use prime_ble_firmware.Base.Int.{pos, negsuc}
use prime_ble_firmware.Xtask.Task.{
  Dir, Cmd, Host, World, Ending, Task, ◌>>=◌, ◌>>◌, pure, exit, panic, expect, asks, calls, require,
  status,
}
use prime_ble_firmware.Xtask.Build.{
  build_tools_check, build_tools_check_debug, build_bt_bootloader, build_bt_bootloader_debug,
  build_bt_firmware, build_bt_debug_firmware, build_bt_package, build_bt_minimal_package,
  build_bt_package_debug, patch_sd as run_patch_sd,
}

pub data Commands : Type 0 where
  build_fw_image build_minimal_image build_fw_debug_image patch_sd build_unsigned : Commands
  sign_firmware : String → Commands
  package_firmware : Commands

abbrev pub application : String
application = "./BtPackage/BT_application.bin"

abbrev pub application_signed_once : String
application_signed_once = "./BtPackage/BT_application_signed_once.bin"

abbrev pub application_signed : String
application_signed = "./BtPackage/BT_application_signed.bin"

-- `SIGNATURE_HEADER_SIZE.to_string()`.
abbrev header_size : String
header_size = "256"

-- The call of cosign2, from the input's path to the output's.
abbrev pub cosign2_sign : String → String → String → Bool → String → Cmd
cosign2_sign config_path input version developer output = record {
  program = "cosign2";
  current_dir = Dir.under_root ".";
  args =
      ("sign" ∷ "-c" ∷ config_path ∷ "-i" ∷ input ∷ [])
      ++ ((if developer then "--developer" ∷ [] else [])
          ++ ("--header-size" ∷ header_size ∷ "--target" ∷ "nrf52-ble" ∷ "--binary-version"
              ∷ version ∷ "-o" ∷ output ∷ []));
  stdout_null = true;
  stderr_null = false;
}

-- The call that only shows that there is a cosign2.
unfoldable pub cosign2_probe : Cmd
cosign2_probe = record {
  program = "cosign2";
  current_dir = Dir.inherited;
  args = [];
  stdout_null = true;
  stderr_null = true;
}

unfoldable pub which_rustc : Cmd
which_rustc = record {
  program = "which";
  current_dir = Dir.inherited;
  args = "rustc" ∷ [];
  stdout_null = false;
  stderr_null = false;
}

-- `trim().to_lowercase()` is the host's.
unfoldable pub is_yes : String → Bool
is_yes input = input == "y" || input == "yes"

abbrev is_found : {A : Type 0} → Option A → Bool
is_found none = false
is_found (some _) = true

-- `contains("/nix/store/")`.
unfoldable pub is_nix_toolchain : String → Bool
is_nix_toolchain rustc = is_found (find? rustc "/nix/store/")

module _ (h : Host) where
  unfoldable pub unless : Bool → Task h (Unit {0}) → Task h (Unit {0})
  unless ok otherwise = if ok then pure tt else otherwise

  unfoldable pub sign_bt_firmware : String → Bool → Task h (Unit {0})
  unfolding unless cosign2_probe
  sign_bt_firmware config_path developer = do
    opened ← asks (λ s. h.opens s config_path)
    unless opened (exit (negsuc 0))
    found ← calls (h.spawn cosign2_probe)
    unless found (exit (negsuc 0))
    metadata ← asks h.firmware_version
    version ← expect metadata
    signed_once ← asks (λ s. h.metadata s application_signed_once)
    require (
        cosign2_sign config_path (if signed_once then application_signed_once else application)
          version developer
          (if signed_once || developer then application_signed else application_signed_once))

  -- The question whether to continue: any answer but a yes ends the program with 0.
  unfoldable pub confirm : Task h (Unit {0})
  unfolding unless
  confirm = do input ← calls h.read_line; unless (is_yes input) (exit (pos 0))

  unfoldable pub found_rustc : Option (Bool × String) → Task h String
  found_rustc none = exit (negsuc 0)
  found_rustc (some (false, _)) = exit (negsuc 0)
  found_rustc (some (true, path)) = pure path

  unfoldable pub check_toolchain_path : Task h (Unit {0})
  unfolding confirm unless which_rustc found_rustc
  check_toolchain_path = do
    unless (h.arch == "x86_64") confirm
    output ← calls (h.output which_rustc)
    current_rustc ← found_rustc output
    unless (is_nix_toolchain current_rustc) confirm

  unfoldable pub main : Commands → Bool → Task h (Unit {0})
  main Commands.build_fw_image verbose = do
    build_tools_check h verbose
    build_bt_bootloader h verbose
    build_bt_firmware h verbose
    sign_bt_firmware "cosign2.toml" true
    build_bt_package h
  main Commands.build_minimal_image verbose = do
    build_tools_check h verbose
    build_bt_bootloader h verbose
    build_bt_minimal_package h
  main Commands.build_unsigned verbose = do
    check_toolchain_path
    build_tools_check h verbose
    build_bt_bootloader h verbose
    build_bt_firmware h verbose
  main (Commands.sign_firmware config_path) verbose = sign_bt_firmware config_path false
  main Commands.package_firmware verbose = build_bt_package h
  main Commands.build_fw_debug_image verbose = do
    build_tools_check_debug h verbose
    build_bt_bootloader_debug h verbose
    build_bt_debug_firmware h verbose
    build_bt_package_debug h
  main Commands.patch_sd verbose = run_patch_sd h
