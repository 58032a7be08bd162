-- ===== src/Xtask/Command/Succeeded/Main.antt =====
-- `main` of xtask/src/main.rs, whose builds stop at a command that fails.
use prime_ble_firmware.Base.{
  ◌≡◌, refl, Bool, true, false, List, [], ◌∷◌, Option, none, some, arith, inl, inr, Option-cases,
}
use Prim.Native.String.{String}
use text.Mathlib.Text.{◌==◌}
use prime_ble_firmware.Consts.{base_app_addr}
use prime_ble_firmware.Base.Int.{pos, negsuc}
use prime_ble_firmware.Xtask.Merge.{Record, MergeableFile, merge_files, patches_7_3_0}
use prime_ble_firmware.Xtask.Task.{Host, World, Ending, Task}
use prime_ble_firmware.Xtask.Build.{
  Input, created, make_dir, tools_check, build_bootloader, read_input, read_inputs, write_output,
  merge_to, build_tools_check, build_tools_check_debug, build_bt_bootloader,
  build_bt_bootloader_debug, build_bt_firmware, build_bt_debug_firmware, build_bt_package,
  build_bt_minimal_package, build_bt_package_debug, patch_sd,
}
use prime_ble_firmware.Xtask.Command.{
  Commands, application_signed_once, cosign2_probe, which_rustc, is_yes, is_nix_toolchain, unless,
  found_rustc, confirm, sign_bt_firmware, check_toolchain_path, main,
}
use prime_ble_firmware.Xtask.Command.Succeeded.{
  succeeded, IsStrict, bind-IsStrict, pure-IsStrict, exit-IsStrict, panic-IsStrict, expect-IsStrict,
  asks-IsStrict, calls-IsStrict, require-IsStrict, require_or_panic-IsStrict, if-IsStrict,
}

module _ (h : Host) where
  make_dir-IsStrict : (path : String) → IsStrict (make_dir h path)
  unfolding make_dir created
  make_dir-IsStrict path = bind-IsStrict (asks-IsStrict (λ s. h.exists s path)) (λ present.
      if-IsStrict present (pure-IsStrict tt) (
        bind-IsStrict (calls-IsStrict (h.create_dir path))
          (λ ok. if-IsStrict ok (pure-IsStrict tt) panic-IsStrict)))

  tools_check-IsStrict :
      (verbose : Bool) (packages : List String) (folder : String)
      → IsStrict (tools_check h verbose packages folder)
  unfolding tools_check
  tools_check-IsStrict verbose packages folder = bind-IsStrict (require-IsStrict _) (λ _.
      bind-IsStrict (require-IsStrict _)
        (λ _. bind-IsStrict (require-IsStrict _) (λ _. make_dir-IsStrict folder)))

  build_bootloader-IsStrict :
      (verbose : Bool) (bin hex : String) → IsStrict (build_bootloader h verbose bin hex)
  unfolding build_bootloader
  build_bootloader-IsStrict verbose bin hex =
      bind-IsStrict (require-IsStrict _)
        (λ _. bind-IsStrict (require-IsStrict _) (λ _. require-IsStrict _))

  build_bt_firmware-IsStrict : (verbose : Bool) → IsStrict (build_bt_firmware h verbose)
  unfolding build_bt_firmware
  build_bt_firmware-IsStrict verbose =
      bind-IsStrict (require-IsStrict _)
        (λ _. bind-IsStrict (require-IsStrict _) (λ _. require-IsStrict _))

  build_bt_debug_firmware-IsStrict : (verbose : Bool) → IsStrict (build_bt_debug_firmware h verbose)
  unfolding build_bt_debug_firmware
  build_bt_debug_firmware-IsStrict verbose =
      bind-IsStrict (require_or_panic-IsStrict _) (λ _. require_or_panic-IsStrict _)

  read_input-IsStrict : (input : Input) → IsStrict (read_input h input)
  unfolding read_input
  read_input-IsStrict (Input.ihex path) =
      bind-IsStrict (asks-IsStrict (λ s. h.read_ihex s path)) (λ read.
        bind-IsStrict (expect-IsStrict read)
          (λ records. pure-IsStrict (MergeableFile.ihex records)))
  read_input-IsStrict (Input.binary path) =
      bind-IsStrict (asks-IsStrict (λ s. h.read_binary s path)) (λ read.
        bind-IsStrict (expect-IsStrict read)
          (λ bytes. pure-IsStrict (MergeableFile.binary bytes base_app_addr)))

  read_inputs-IsStrict : (inputs : List Input) → IsStrict (read_inputs h inputs)
  unfolding read_inputs
  read_inputs-IsStrict [] = pure-IsStrict []
  read_inputs-IsStrict (input ∷ inputs) =
      bind-IsStrict (read_input-IsStrict input) (λ file.
        bind-IsStrict (read_inputs-IsStrict inputs) (λ files. pure-IsStrict (file ∷ files)))

  write_output-IsStrict :
      (path : String) (records : List Record) → IsStrict (write_output h path records)
  unfolding write_output
  write_output-IsStrict path records = record {
    strict = λ w b ok e. elim (Option-cases (h.write_ihex path records w.host)) [
      | inl e' ↦ ground arith
      | inr (s, e') ↦ ground arith
    ];
  }

  merge_to-IsStrict : (inputs : List Input) (output : String) → IsStrict (merge_to h inputs output)
  unfolding merge_to
  merge_to-IsStrict inputs output = bind-IsStrict (read_inputs-IsStrict inputs) (λ files.
      bind-IsStrict (expect-IsStrict (merge_files files (patches_7_3_0 0xB4)))
        (λ records. write_output-IsStrict output records))

  build_bt_package-IsStrict : IsStrict (build_bt_package h)
  unfolding build_bt_package
  build_bt_package-IsStrict = bind-IsStrict (merge_to-IsStrict _ _) (λ _. require-IsStrict _)

  build_bt_minimal_package-IsStrict : IsStrict (build_bt_minimal_package h)
  unfolding build_bt_minimal_package
  build_bt_minimal_package-IsStrict =
      bind-IsStrict (merge_to-IsStrict _ _) (λ _. require-IsStrict _)

  build_bt_package_debug-IsStrict : IsStrict (build_bt_package_debug h)
  unfolding build_bt_package_debug
  build_bt_package_debug-IsStrict = bind-IsStrict (merge_to-IsStrict _ _) (λ _. require-IsStrict _)

  unless-IsStrict : (ok : Bool) {m : Task h (Unit {0})} → IsStrict m → IsStrict (unless h ok m)
  unfolding unless
  unless-IsStrict ok hm = if-IsStrict ok (pure-IsStrict tt) hm

  sign_bt_firmware-IsStrict :
      (config_path : String) (developer : Bool)
      → IsStrict (sign_bt_firmware h config_path developer)
  unfolding sign_bt_firmware
  sign_bt_firmware-IsStrict config_path developer =
      bind-IsStrict (asks-IsStrict (λ s. h.opens s config_path)) (λ opened.
        bind-IsStrict (unless-IsStrict opened (exit-IsStrict (negsuc 0))) (λ _.
          bind-IsStrict (calls-IsStrict (h.spawn cosign2_probe)) (λ found.
            bind-IsStrict (unless-IsStrict found (exit-IsStrict (negsuc 0))) (λ _.
              bind-IsStrict (asks-IsStrict h.firmware_version) (λ metadata.
                bind-IsStrict (expect-IsStrict metadata) (λ version.
                  bind-IsStrict (asks-IsStrict (λ s. h.metadata s application_signed_once))
                    (λ signed_once. require-IsStrict _)))))))

  confirm-IsStrict : IsStrict (confirm h)
  unfolding confirm
  confirm-IsStrict =
      bind-IsStrict (calls-IsStrict h.read_line)
        (λ input. unless-IsStrict (is_yes input) (exit-IsStrict (pos 0)))

  found_rustc-IsStrict : (output : Option (Bool × String)) → IsStrict (found_rustc h output)
  unfolding found_rustc
  found_rustc-IsStrict none = exit-IsStrict (negsuc 0)
  found_rustc-IsStrict (some (false, path)) = exit-IsStrict (negsuc 0)
  found_rustc-IsStrict (some (true, path)) = pure-IsStrict path

  check_toolchain_path-IsStrict : IsStrict (check_toolchain_path h)
  unfolding check_toolchain_path
  check_toolchain_path-IsStrict =
      bind-IsStrict (unless-IsStrict (h.arch == "x86_64") confirm-IsStrict) (λ _.
        bind-IsStrict (calls-IsStrict (h.output which_rustc)) (λ output.
          bind-IsStrict (found_rustc-IsStrict output)
            (λ current_rustc. unless-IsStrict (is_nix_toolchain current_rustc) confirm-IsStrict)))

  main-IsStrict : (command : Commands) (verbose : Bool) → IsStrict (main h command verbose)
  unfolding main build_tools_check build_tools_check_debug build_bt_bootloader
      build_bt_bootloader_debug patch_sd
  main-IsStrict Commands.build_fw_image verbose = bind-IsStrict (tools_check-IsStrict _ _ _) (λ _.
      bind-IsStrict (build_bootloader-IsStrict _ _ _) (λ _.
        bind-IsStrict (build_bt_firmware-IsStrict verbose)
          (λ _. bind-IsStrict (sign_bt_firmware-IsStrict _ _) (λ _. build_bt_package-IsStrict))))
  main-IsStrict Commands.build_minimal_image verbose =
      bind-IsStrict (tools_check-IsStrict _ _ _) (λ _.
        bind-IsStrict (build_bootloader-IsStrict _ _ _) (λ _. build_bt_minimal_package-IsStrict))
  main-IsStrict Commands.build_fw_debug_image verbose =
      bind-IsStrict (tools_check-IsStrict _ _ _) (λ _.
        bind-IsStrict (build_bootloader-IsStrict _ _ _) (λ _.
          bind-IsStrict (build_bt_debug_firmware-IsStrict verbose)
            (λ _. build_bt_package_debug-IsStrict)))
  main-IsStrict Commands.patch_sd verbose = merge_to-IsStrict _ _
  main-IsStrict Commands.build_unsigned verbose = bind-IsStrict check_toolchain_path-IsStrict (λ _.
      bind-IsStrict (tools_check-IsStrict _ _ _) (λ _.
        bind-IsStrict (build_bootloader-IsStrict _ _ _) (λ _. build_bt_firmware-IsStrict verbose)))
  main-IsStrict (Commands.sign_firmware config_path) verbose =
      sign_bt_firmware-IsStrict config_path false
  main-IsStrict Commands.package_firmware verbose = build_bt_package-IsStrict

  -- Whatever the command, and whatever the machine answers: if xtask comes to its end, then every
  -- command whose status it asked for could be started and succeeded.
  pub main-succeeded :
      (command : Commands) (verbose : Bool) (s : h.State)
      → let w : World h = record { host = s; log = [] } in
        (main h command verbose w).1 ≡ Ending.returns tt
        → succeeded (main h command verbose w).0.log ≡ true
  main-succeeded command verbose s e =
      (main-IsStrict command verbose).strict (record { host = s; log = [] }) tt refl e
