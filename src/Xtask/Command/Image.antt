-- ===== src/Xtask/Command/Image.antt =====
-- The full image of xtask/src/main.rs: what `build_bt_package` leaves on the disk.
use prime_ble_firmware.Base.{◌≡◌, List, [], ◌∷◌, some, inl, inr, Option-cases, arith}
use mathlib.Core.List.{reverse}
use prime_ble_firmware.Consts.{base_app_addr}
use prime_ble_firmware.Protocol.{Bytes}
use prime_ble_firmware.Xtask.Merge.{
  Record, MergeableFile, read_records, all_records, sort_by_addr, merge_files, patches_7_3_0,
}
use prime_ble_firmware.Xtask.Merge.RoundTrip.{patch_all, merge_files-read}
use prime_ble_firmware.Xtask.Task.{Host, World, Ending, ◌>>=◌}
use prime_ble_firmware.Xtask.Build.{
  read_input, read_inputs, write_output, merge_to, build_bt_package,
}

module _ (h : Host) where
  -- The parts of a full image on a disk: the SoftDevice, the signed application, the bootloader.
  pub record Parts (s : h.State) : Type 0 where
    pub softdevice : List Record
    pub application : Bytes
    pub bootloader : List Record
    pub softdevice_is_read : h.read_ihex s "misc/s113_nrf52_7.3.0_softdevice.hex" ≡ some softdevice
    pub application_is_read :
        h.read_binary s "BtPackage/BT_application_signed.bin" ≡ some application
    pub bootloader_is_read : h.read_ihex s "BtPackage/bootloader.hex" ≡ some bootloader

  -- What the parts are merged of.
  abbrev pub merged_parts : {s : h.State} → Parts s → List MergeableFile
  merged_parts parts =
      MergeableFile.ihex parts.softdevice
      ∷ MergeableFile.binary parts.application base_app_addr
      ∷ MergeableFile.ihex parts.bootloader
      ∷ []

  -- If the packaging comes to its end, then the three parts could be read, and what was written as
  -- the full image reads as the records of the parts, the application from its base address on,
  -- sorted by address and with the patches of the SoftDevice put in.
  pub build_bt_package-returns :
      (w : World h)
      → (build_bt_package h w).1 ≡ Ending.returns tt
      → (parts : Parts w.host) × (image : List Record) × (t : h.State) × (h.write_ihex
            "BtPackage/BTApp_Full_Image.hex" image w.host
          ≡ some t)
        × (read_records 0 image
            ≡ patch_all
                (reverse (patches_7_3_0 0xB4))
                (sort_by_addr (all_records (merged_parts parts))))
  unfolding build_bt_package merge_to read_inputs read_input write_output ◌>>=◌
  build_bt_package-returns w e =
      let s : h.State = w.host in
      elim (Option-cases (h.read_ihex s "misc/s113_nrf52_7.3.0_softdevice.hex")) [
        | inl e1 ↦ absurd (ground arith)
        | inr (softdevice, e1) ↦
            elim (Option-cases (h.read_binary s "BtPackage/BT_application_signed.bin")) [
              | inl e2 ↦ absurd (ground arith)
              | inr (application, e2) ↦
                  elim (Option-cases (h.read_ihex s "BtPackage/bootloader.hex")) [
                    | inl e3 ↦ absurd (ground arith)
                    | inr (bootloader, e3) ↦
                        let parts : Parts s = record {
                          softdevice = softdevice;
                          application = application;
                          bootloader = bootloader;
                          softdevice_is_read = e1;
                          application_is_read = e2;
                          bootloader_is_read = e3;
                        } in
                        elim (Option-cases
                          (merge_files (merged_parts parts) (patches_7_3_0 0xB4))) [
                            | inl e4 ↦ absurd (ground arith)
                            | inr (image, e4) ↦
                                elim (Option-cases
                                  (h.write_ihex "BtPackage/BTApp_Full_Image.hex" image s)) [
                                    | inl e5 ↦ absurd (ground arith)
                                    | inr (t, e5) ↦ (
                                      parts,
                                      image,
                                      t,
                                      e5,
                                      merge_files-read (merged_parts parts) (patches_7_3_0 0xB4)
                                          image e4,
                                    )
                                  ]
                          ]
                  ]
            ]
      ]
