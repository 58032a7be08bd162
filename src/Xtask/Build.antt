-- ===== src/Xtask/Build.antt =====
-- The builds of xtask/src/main.rs: the tools, the bootloader, the firmware and their packages. What
-- is printed is left out, the sizes of the images included.
use prime_ble_firmware.Base.{
  Bool, false, not, List, [], ◌∷◌, ◌++◌, Option, none, some, if◌then◌else◌,
}
use Prim.Native.String.{String}
use prime_ble_firmware.Consts.{base_app_addr}
use prime_ble_firmware.Xtask.Merge.{Record, MergeableFile, merge_files, patches_7_3_0}
use prime_ble_firmware.Xtask.Task.{
  Dir, Cmd, Host, World, Ending, Task, ◌>>=◌, ◌>>◌, pure, panic, expect, asks, calls, require,
  require_or_panic,
}

-- `MergeableFile`, by the path of the file.
pub data Input : Type 0 where
  ihex : String → Input
  binary : String → Input

module _ (h : Host) where
  -- A command of cargo; without `verbose` its output is dropped.
  cargo_cmd : Bool → Dir → List String → Cmd
  cargo_cmd verbose dir args = record {
    program = h.cargo;
    current_dir = dir;
    args = args;
    stdout_null = not verbose;
    stderr_null = not verbose;
  }

  -- A build is also told to be quiet.
  cargo_build : Bool → Dir → List String → Cmd
  cargo_build verbose dir args =
      cargo_cmd verbose dir (if verbose then args else args ++ "--quiet" ∷ [])

  rm : Dir → List String → Cmd
  rm dir args = record {
    program = "rm";
    current_dir = dir;
    args = "-rf" ∷ args;
    stdout_null = false;
    stderr_null = false;
  }

  root : Dir
  root = Dir.under_root "."

  unfoldable pub created : Bool → Task h (Unit {0})
  created ok = if ok then pure tt else panic

  unfoldable pub make_dir : String → Task h (Unit {0})
  make_dir path = do
    present ← asks (λ s. h.exists s path)
    if present then pure tt else (calls (h.create_dir path) >>= created)

  -- The folder is that of the package.
  unfoldable pub tools_check : Bool → List String → String → Task h (Unit {0})
  unfolding cargo_cmd rm root
  tools_check verbose packages folder = do
    require (cargo_cmd verbose root ("objcopy" ∷ "--version" ∷ []))
    require (cargo_cmd verbose root ("clean" ∷ "--release" ∷ packages))
    require (rm root (folder ∷ []))
    make_dir folder

  unfoldable pub build_tools_check : Bool → Task h (Unit {0})
  build_tools_check verbose =
      tools_check verbose ("-p" ∷ "firmware" ∷ "-p" ∷ "bootloader" ∷ []) "BtPackage"

  unfoldable pub build_tools_check_debug : Bool → Task h (Unit {0})
  build_tools_check_debug verbose =
      tools_check verbose ("--package" ∷ "firmware" ∷ "--package" ∷ "bootloader" ∷ [])
        "BtPackageDebug"

  unfoldable pub build_bootloader : Bool → String → String → Task h (Unit {0})
  unfolding cargo_cmd cargo_build
  build_bootloader verbose bin hex = do
    let dir = Dir.under_root "bootloader"
    require (cargo_build verbose dir ("build" ∷ "--release" ∷ []))
    require (
        cargo_cmd verbose dir
          ("objcopy" ∷ "--release" ∷ "--" ∷ "-j" ∷ ".text" ∷ "-O" ∷ "binary" ∷ bin ∷ []))
    require (cargo_cmd verbose dir ("objcopy" ∷ "--release" ∷ "--" ∷ "-O" ∷ "ihex" ∷ hex ∷ []))

  unfoldable pub build_bt_bootloader : Bool → Task h (Unit {0})
  build_bt_bootloader verbose =
      build_bootloader verbose "../BtPackage/bootloader.bin" "../BtPackage/bootloader.hex"

  unfoldable pub build_bt_bootloader_debug : Bool → Task h (Unit {0})
  build_bt_bootloader_debug verbose =
      build_bootloader verbose "../BtPackageDebug/bootloaderDebug.bin"
        "../BtPackageDebug/bootloaderDebug.hex"

  -- `BASE_BOOTLOADER_ADDR.to_string()`.
  pad_to : String
  pad_to = "159744"

  unfoldable pub build_bt_firmware : Bool → Task h (Unit {0})
  unfolding cargo_cmd cargo_build pad_to
  build_bt_firmware verbose = do
    let dir = Dir.under_root "firmware"
    require (
        cargo_build verbose dir (
          "build" ∷ "--release" ∷ "-Z" ∷ "build-std=panic_abort" ∷ "-Z"
          ∷ "build-std-features=panic_immediate_abort" ∷ []))
    require (
        cargo_cmd verbose dir (
          "objcopy" ∷ "--release" ∷ "--" ∷ "-O" ∷ "binary"
          ∷ "../BtPackage/BT_application_unpadded.bin" ∷ []))
    require (
        cargo_cmd verbose dir (
          "objcopy" ∷ "--release" ∷ "--" ∷ "--pad-to" ∷ pad_to ∷ "-O" ∷ "binary"
          ∷ "../BtPackage/BT_application.bin" ∷ []))

  unfoldable pub build_bt_debug_firmware : Bool → Task h (Unit {0})
  unfolding cargo_cmd cargo_build
  build_bt_debug_firmware verbose = do
    let dir = Dir.under_root "firmware"
    require_or_panic (cargo_build verbose dir ("build" ∷ "--release" ∷ []))
    require_or_panic (
        cargo_cmd verbose dir (
          "objcopy" ∷ "--release" ∷ "--" ∷ "-O" ∷ "ihex" ∷ "../BtPackageDebug/BtappDebug.hex" ∷ []))

  -- A file is read as a whole, or the program panics.
  unfoldable pub read_input : Input → Task h MergeableFile
  read_input (Input.ihex path) = do
    read ← asks (λ s. h.read_ihex s path)
    records ← expect read
    pure (MergeableFile.ihex records)
  read_input (Input.binary path) = do
    read ← asks (λ s. h.read_binary s path)
    bytes ← expect read
    pure (MergeableFile.binary bytes base_app_addr)

  unfoldable pub read_inputs : List Input → Task h (List MergeableFile)
  read_inputs [] = pure []
  read_inputs (input ∷ inputs) = do
    file ← read_input input
    files ← read_inputs inputs
    pure (file ∷ files)

  unfoldable pub write_output : String → List Record → Task h (Unit {0})
  write_output path records w = written (h.write_ihex path records w.host)
    where
      written : Option h.State → World h × Ending (Unit {0})
      written none = (w, Ending.panics)
      written (some s) = (record w { host = s }, Ending.returns tt)

  -- `merge_files` with the reading of its inputs and the writing of its output.
  unfoldable pub merge_to : List Input → String → Task h (Unit {0})
  merge_to inputs output = do
    files ← read_inputs inputs
    records ← expect (merge_files files (patches_7_3_0 0xB4))
    write_output output records

  softdevice : Input
  softdevice = Input.ihex "misc/s113_nrf52_7.3.0_softdevice.hex"

  unfoldable pub build_bt_package : Task h (Unit {0})
  unfolding rm softdevice
  build_bt_package = do
    merge_to
        (softdevice
          ∷ Input.binary "BtPackage/BT_application_signed.bin"
          ∷ Input.ihex "BtPackage/bootloader.hex"
          ∷ [])
        "BtPackage/BTApp_Full_Image.hex"
    require (rm (Dir.under_root "BtPackage") ("bootloader.hex" ∷ []))

  unfoldable pub build_bt_minimal_package : Task h (Unit {0})
  unfolding rm softdevice
  build_bt_minimal_package = do
    merge_to (softdevice ∷ Input.ihex "BtPackage/bootloader.hex" ∷ [])
        "BtPackage/BT_Minimal_Image.hex"
    require (rm (Dir.under_root "BtPackage") ("bootloader.hex" ∷ []))

  unfoldable pub build_bt_package_debug : Task h (Unit {0})
  unfolding rm softdevice
  build_bt_package_debug = do
    merge_to
        (softdevice
          ∷ Input.ihex "BtPackageDebug/BtappDebug.hex"
          ∷ Input.ihex "BtPackageDebug/bootloaderDebug.hex"
          ∷ [])
        "BtPackageDebug/BTApp_Full_Image_debug.hex"
    require (rm (Dir.under_root "BtPackageDebug") ("bootloaderDebug.hex" ∷ "BtappDebug.hex" ∷ []))

  unfoldable pub patch_sd : Task h (Unit {0})
  unfolding softdevice
  patch_sd = merge_to (softdevice ∷ []) "misc/s113_nrf52_7.3.0_softdevice_patched.hex"
