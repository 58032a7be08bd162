-- ===== src/Tests/Tasks.antt =====
-- The theorems on the commands of xtask, on a machine where every command succeeds and leaves a file
-- by the name of its last argument.
use prime_ble_firmware.Base.{
  ◌≡◌, refl, ap, subst, chunks, Bool, true, false, ◌||◌, List, [], ◌∷◌, ◌++◌, some,
}
use mathlib.Core.List.{reverse}
use Prim.Native.String.{String}
use text.Mathlib.Text.{◌==◌}
use text.Mathlib.TextPositions.{eq_refl}
use prime_ble_firmware.Xtask.Merge.{
  Record, read_records, all_records, sort_by_addr, merge_files, patches_7_3_0, file_records, place,
}
use prime_ble_firmware.Xtask.Merge.RoundTrip.{patch_all}
use prime_ble_firmware.Xtask.Task.{Host, World, ◌>>=◌, status, judged, require}
use prime_ble_firmware.Xtask.Build.{
  build_tools_check, build_bt_bootloader, build_bt_firmware, build_bt_package, merge_to,
  read_inputs, read_input, write_output, make_dir, tools_check, build_bootloader,
}
use prime_ble_firmware.Xtask.Command.{
  Commands, application, application_signed_once, application_signed, cosign2_sign, is_yes,
  is_nix_toolchain, unless, confirm, found_rustc, sign_bt_firmware, check_toolchain_path, main,
}
use prime_ble_firmware.Xtask.Command.Succeeded.{succeeded}
use prime_ble_firmware.Xtask.Command.Succeeded.Main.{main-succeeded}
use prime_ble_firmware.Xtask.Command.Signing.{SigningLaws, signed, sign_bt_firmware_twice}
use prime_ble_firmware.Xtask.Command.Image.{Parts, merged_parts, build_bt_package-returns}

abbrev last_or : String → List String → String
last_or default [] = default
last_or default (arg ∷ args) = last_or arg args

abbrev is_among : String → List String → Bool
is_among path [] = false
is_among path (file ∷ files) = path == file || is_among path files

abbrev sim_host : Host
sim_host = record {
  State = List String;
  cargo = "cargo";
  arch = "aarch64";
  status = λ cmd files. (last_or "" cmd.args ∷ files, some true);
  spawn = λ cmd files. (files, true);
  output = λ cmd files. (files, some (true, "/nix/store/rust/bin/rustc"));
  opens = λ files path. true;
  metadata = λ files path. is_among path files;
  exists = λ files path. true;
  create_dir = λ path files. (files, true);
  firmware_version = λ files. some "4.0.0";
  read_ihex = λ files path. some (Record.contents 0x12F4 (1 ∷ 2 ∷ []) ∷ Record.end_of_file ∷ []);
  read_binary = λ files path. some (5 ∷ 6 ∷ []);
  write_ihex = λ path records files. some (path ∷ files);
  read_line = λ files. (files, "yes");
}

abbrev clean : World sim_host
clean = record { host = []; log = [] }

main-succeeded_example : succeeded (main sim_host Commands.build_unsigned false clean).0.log ≡ true
unfolding main check_toolchain_path unless confirm found_rustc is_yes is_nix_toolchain
    build_tools_check build_bt_bootloader build_bt_firmware make_dir tools_check build_bootloader
    require status judged ◌>>=◌
main-succeeded_example = main-succeeded sim_host Commands.build_unsigned false [] refl

is_left :
    (config_path input version output : String) (developer : Bool) (s : List String)
    → sim_host.metadata
        (sim_host.status (cosign2_sign config_path input version developer output) s).0
        output
      ≡ true
is_left config_path input version output true s = rw (eq_refl output) refl
is_left config_path input version output false s = rw (eq_refl output) refl

sim_signing_laws : SigningLaws sim_host
sim_signing_laws = record {
  metadata-cosign2_sign = λ config_path input version output developer s t e.
      subst (λ files. is_among output files ≡ true) (ap (λ r. r.0) e)
        (is_left config_path input version output developer s);
  metadata-spawn = λ cmd s path. refl;
}

abbrev signed_log : World sim_host
signed_log = (sign_bt_firmware sim_host "cosign2.toml" false clean).0

sign_bt_firmware_twice_example :
    (v1 v2 : String) × ((sign_bt_firmware sim_host "other.toml" false signed_log).0.log
      ≡ (signed sim_host "cosign2.toml" application v1 false application_signed_once ∷ [])
        ++ signed sim_host "other.toml" application_signed_once v2 false application_signed ∷ [])
unfolding sign_bt_firmware unless require status judged ◌>>=◌
sign_bt_firmware_twice_example =
    sign_bt_firmware_twice sim_host sim_signing_laws "cosign2.toml" "other.toml" clean refl refl
      refl

build_bt_package-returns_example :
    (parts : Parts sim_host []) × (image : List Record) × (t : List String) × (sim_host.write_ihex
        "BtPackage/BTApp_Full_Image.hex" image []
      ≡ some t)
    × (read_records 0 image
        ≡ patch_all
            (reverse (patches_7_3_0 0xB4))
            (sort_by_addr (all_records (merged_parts sim_host parts))))
unfolding build_bt_package merge_to read_inputs read_input write_output require status judged ◌>>=◌
    merge_files sort_by_addr file_records read_records place chunks
build_bt_package-returns_example = build_bt_package-returns sim_host clean refl
