-- ===== src/Protocol/Wire/Enums.antt =====
-- The enumerations without fields of host-protocol/src/lib.rs by the numbers of their variants,
-- which are their positions in the source.
use prime_ble_firmware.Base.{ℕ, Option, none, some, ◌==◌, if◌then◌else◌}
use prime_ble_firmware.Protocol.{
  Bytes, TxPower, SecretSaveResponse, TrustLevel, State, PostcardError, SendDataResponse,
}
use prime_ble_firmware.Protocol.Wire.{Postcard}
use prime_ble_firmware.Protocol.Wire.Parts.{◌>>=◌}

abbrev pub tx_power_index : TxPower → ℕ
tx_power_index TxPower.negative40_dbm = 0
tx_power_index TxPower.negative20_dbm = 1
tx_power_index TxPower.negative16_dbm = 2
tx_power_index TxPower.negative12_dbm = 3
tx_power_index TxPower.negative8_dbm = 4
tx_power_index TxPower.negative4_dbm = 5
tx_power_index TxPower.zero_dbm = 6
tx_power_index TxPower.positive3_dbm = 7
tx_power_index TxPower.positive4_dbm = 8

abbrev pub tx_power_at : ℕ → Option TxPower
tx_power_at n =
    if n == 0
    then some TxPower.negative40_dbm
    else if n == 1
    then some TxPower.negative20_dbm
    else if n == 2
    then some TxPower.negative16_dbm
    else if n == 3
    then some TxPower.negative12_dbm
    else if n == 4
    then some TxPower.negative8_dbm
    else if n == 5
    then some TxPower.negative4_dbm
    else if n == 6
    then some TxPower.zero_dbm
    else if n == 7
    then some TxPower.positive3_dbm
    else if n == 8
    then some TxPower.positive4_dbm
    else none

abbrev pub secret_save_response_index : SecretSaveResponse → ℕ
secret_save_response_index SecretSaveResponse.not_allowed = 0
secret_save_response_index SecretSaveResponse.sealed = 1
secret_save_response_index SecretSaveResponse.error = 2

abbrev pub secret_save_response_at : ℕ → Option SecretSaveResponse
secret_save_response_at n =
    if n == 0
    then some SecretSaveResponse.not_allowed
    else if n == 1
    then some SecretSaveResponse.sealed
    else if n == 2
    then some SecretSaveResponse.error
    else none

abbrev pub trust_level_index : TrustLevel → ℕ
trust_level_index TrustLevel.full = 0
trust_level_index TrustLevel.developer = 1

abbrev pub trust_level_at : ℕ → Option TrustLevel
trust_level_at n =
    if n == 0 then some TrustLevel.full else if n == 1 then some TrustLevel.developer else none

abbrev pub state_index : State → ℕ
state_index State.enabled = 0
state_index State.disabled = 1
state_index State.firmware_upgrade = 2
state_index State.unknown = 3

abbrev pub state_at : ℕ → Option State
state_at n =
    if n == 0
    then some State.enabled
    else if n == 1
    then some State.disabled
    else if n == 2
    then some State.firmware_upgrade
    else if n == 3
    then some State.unknown
    else none

abbrev pub postcard_error_index : PostcardError → ℕ
postcard_error_index PostcardError.deser = 0
postcard_error_index PostcardError.over_full = 1

abbrev pub postcard_error_at : ℕ → Option PostcardError
postcard_error_at n =
    if n == 0
    then some PostcardError.deser
    else if n == 1
    then some PostcardError.over_full
    else none

abbrev pub send_data_response_index : SendDataResponse → ℕ
send_data_response_index SendDataResponse.sent = 0
send_data_response_index SendDataResponse.buffer_full = 1

abbrev pub send_data_response_at : ℕ → Option SendDataResponse
send_data_response_at n =
    if n == 0
    then some SendDataResponse.sent
    else if n == 1
    then some SendDataResponse.buffer_full
    else none

module _ (p : Postcard) where
  -- An enumeration without fields, by its numbering.
  unfoldable pub read_enum : {A : Type 0} → (ℕ → Option A) → Bytes → Option (A × Bytes)
  read_enum at bs = do (n, rest) ← p.variant.read bs; a ← at n; some (a, rest)
