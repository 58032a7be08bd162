-- ===== src/Protocol/Wire/Decoded/Bootloader.antt =====
-- What a decoded `Bootloader` message is known to be.
use prime_ble_firmware.Base.{ℕ, ◌<◌, ◌≡◌, some, arith, length, ◌==◌, ◌≤◌}
use prime_ble_firmware.Consts.{u32_mod}
use prime_ble_firmware.Protocol.{Bytes, Bootloader}
use prime_ble_firmware.Protocol.Wire.{Postcard, PostcardLaws, IsU8, IsU32}
use prime_ble_firmware.Protocol.Wire.Parts.{read_bytes, read_array-IsArray, read_bytes-le}
use prime_ble_firmware.Protocol.Wire.Bootloader.{
  read_bootloader, read_bootloader_at, read_ack_verify_firmware, read_ack_with_idx_crc,
  read_write_firmware_block,
}
use prime_ble_firmware.Protocol.Wire.Validity.{IsBootloader}
use prime_ble_firmware.Protocol.Wire.Decoded.{
  Gives, Gives-none, Gives-some, Gives-if, Gives-made_of, Gives-bind, read_str-IsStr,
}

-- A block of `n` bytes at most.
abbrev pub IsBlockIn : ℕ → Bootloader → Type 0
IsBlockIn n (Bootloader.write_firmware_block block_idx block_data) = length block_data ≤ n
IsBlockIn n _ = Unit {0}

module _ (p : Postcard) (laws : PostcardLaws p) where
  block_IsBootloader :
      (bs more more1 xs rest : Bytes) (n i : ℕ)
      → p.variant.read bs ≡ some (n, more)
      → p.usize.read more ≡ some (i, more1)
      → read_bytes p more1 ≡ some (xs, rest)
      → ((i < u32_mod) × (length xs < u32_mod)) × (length xs ≤ length bs)
  block_IsBootloader bs more more1 xs rest n i e e1 e2 = ground (
    arith,
    laws.variant_laws.read-le bs n more e,
    laws.usize_laws.read-le more i more1 e1,
    laws.usize_laws.read-IsValue more i more1 e1,
    read_bytes-le p laws more1 xs rest e2,
  )

  pub read_bootloader-IsBootloader :
      (bs : Bytes) → Gives (λ m. IsBootloader p m × IsBlockIn (length bs) m) (read_bootloader p bs)
  unfolding read_bootloader read_bootloader_at read_ack_verify_firmware read_ack_with_idx_crc
      read_write_firmware_block
  read_bootloader-IsBootloader bs = Gives-bind (p.variant.read bs) _ (λ n more e.
      (Gives-if (n == 0) (Gives-some (tt, tt)) (
        Gives-if (n == 1) (Gives-some (tt, tt)) (
          Gives-if (n == 2) (Gives-some (tt, tt)) (
            Gives-if (n == 3) (Gives-some (tt, tt)) (
              Gives-if (n == 4) (Gives-some (tt, tt)) (
                Gives-if (n == 5)
                  (Gives-bind (p.bool.read more) _ (λ result more1 e1.
                    Gives-made_of _ (λ xs rest e2.
                      ((read_array-IsArray p.u8 IsU8 1 laws.u8_laws 32 more1 xs rest e2).0, tt))))
                  (Gives-if (n == 6)
                    (Gives-made_of _ (λ i rest e. (laws.usize_laws.read-IsValue more i rest e, tt)))
                    (Gives-if (n == 7)
                      (Gives-made_of _
                        (λ i rest e. (laws.usize_laws.read-IsValue more i rest e, tt)))
                      (Gives-if (n == 8)
                        (Gives-bind (p.usize.read more) _ (λ i more1 e1.
                          Gives-made_of _ (λ crc rest e2. (
                            (
                              laws.usize_laws.read-IsValue more i more1 e1,
                              laws.u32_laws.read-IsValue more1 crc rest e2,
                            ),
                            tt,
                          ))))
                        (Gives-if (n == 9)
                          (Gives-bind (p.usize.read more) _ (λ i more1 e1.
                            Gives-made_of _
                              (λ xs rest e2. block_IsBootloader bs more more1 xs rest n i e e1 e2)))
                          (Gives-if (n == 10)
                            (Gives-made_of _
                              (λ i rest e. (laws.usize_laws.read-IsValue more i rest e, tt)))
                            (Gives-if (n == 11) (Gives-some (tt, tt)) (
                              Gives-if (n == 12) (Gives-some (tt, tt)) (
                                Gives-if (n == 13)
                                  (Gives-made_of _
                                    (λ s rest e. (read_str-IsStr p laws more s rest e, tt)))
                                  (Gives-if (n == 14) (Gives-some (tt, tt)) (
                                    Gives-if (n == 15)
                                      (Gives-made_of _
                                        (λ s rest e. (read_str-IsStr p laws more s rest e, tt)))
                                      (Gives-if (n == 16)
                                        (Gives-made_of _ (λ xs rest e. (
                                          (read_array-IsArray p.u32 IsU32 5 laws.u32_laws 8 more xs
                                              rest e).0,
                                          tt,
                                        )))
                                        (Gives-if (n == 17) (Gives-made_of _ (λ a rest e. (tt, tt)))
                                          (Gives-if (n == 18)
                                            (Gives-made_of _ (λ a rest e. (tt, tt)))
                                            Gives-none))))))))))))))))))))
