-- ===== src/Protocol/Wire/Decoded/Bluetooth.antt =====
-- What a decoded `Bluetooth` message is known to be.
use prime_ble_firmware.Base.{◌==◌}
use prime_ble_firmware.Consts.{app_mtu, max_device_name_len}
use prime_ble_firmware.Protocol.{Bytes}
use prime_ble_firmware.Protocol.Wire.{Postcard, PostcardLaws, IsU8}
use prime_ble_firmware.Protocol.Wire.Parts.{read_array-IsArray}
use prime_ble_firmware.Protocol.Wire.Bluetooth.{read_bluetooth, read_bluetooth_at}
use prime_ble_firmware.Protocol.Wire.Validity.{IsBluetooth}
use prime_ble_firmware.Protocol.Wire.Decoded.{
  Gives, Gives-none, Gives-some, Gives-if, Gives-made_of, Gives-bind, read_vec-le, read_str-IsStr,
  read_string-IsStr, read_bluetooth_status-IsConnectionStatus,
}

module _ (p : Postcard) (laws : PostcardLaws p) where
  pub read_bluetooth-IsBluetooth : (bs : Bytes) → Gives (IsBluetooth p) (read_bluetooth p bs)
  unfolding read_bluetooth read_bluetooth_at
  read_bluetooth-IsBluetooth bs = Gives-bind (p.variant.read bs) _ (λ n more e.
      (Gives-if (n == 0) (Gives-made_of _ (laws.u8_laws.read-IsValue more)) (
        Gives-if (n == 1) (Gives-some tt) (
          Gives-if (n == 2) (Gives-some tt) (
            Gives-if (n == 3) (Gives-some tt) (
              Gives-if (n == 4) (Gives-some tt) (
                Gives-if (n == 5) (Gives-some tt) (
                  Gives-if (n == 6) (Gives-some tt) (
                    Gives-if (n == 7) (Gives-some tt) (
                      Gives-if (n == 8)
                        (Gives-made_of _
                          (read_bluetooth_status-IsConnectionStatus p laws more).gives)
                        (Gives-if (n == 9) (Gives-made_of _ (read_vec-le p laws app_mtu more)) (
                          Gives-if (n == 10) (Gives-made_of _ (λ a rest e. tt)) (
                            Gives-if (n == 11) (Gives-some tt) (
                              Gives-if (n == 12) (Gives-made_of _ (read_vec-le p laws app_mtu more))
                                (Gives-if (n == 13) (Gives-some tt) (
                                  Gives-if (n == 14) (Gives-some tt) (
                                    Gives-if (n == 15)
                                      (Gives-made_of _ (read_str-IsStr p laws more))
                                      (Gives-if (n == 16) (Gives-some tt) (
                                        Gives-if (n == 17)
                                          (Gives-made_of _ (λ xs rest e.
                                            (read_array-IsArray p.u8 IsU8 1 laws.u8_laws 6 more xs
                                              rest e).0))
                                          (Gives-if (n == 18) (Gives-made_of _ (λ a rest e. tt)) (
                                            Gives-if (n == 19) (Gives-some tt) (
                                              Gives-if (n == 20) (Gives-some tt) (
                                                Gives-if (n == 21)
                                                  (Gives-made_of _ (λ xs rest e.
                                                    (read_array-IsArray p.u8 IsU8 1 laws.u8_laws 8
                                                      more xs rest e).0))
                                                  (Gives-if (n == 22) (Gives-some tt) (
                                                    Gives-if (n == 23) (Gives-some tt) (
                                                      Gives-if (n == 24)
                                                        (Gives-made_of _ (
                                                          read_string-IsStr p laws
                                                            max_device_name_len more))
                                                        (Gives-if (n == 25) (Gives-some tt) (
                                                          Gives-if (n == 26)
                                                            (Gives-made_of _
                                                            (read_vec-le p laws app_mtu more))
                                                            (Gives-if (n == 27)
                                                            (Gives-made_of _
                                                            (read_vec-le p laws app_mtu more))
                                                            Gives-none)))))))))))))))))))))))))))))
