-- ===== src/Protocol/Compatibility/Base.antt =====
-- The base messages that host-protocol/src/lib.rs tests, with the bytes that it wants of them.
use prime_ble_firmware.Base.{List, [], ◌∷◌, replicate}
use prime_ble_firmware.Protocol.{Bytes, HostProtocolMessage, State, PostcardError}

-- `check_base_messages`.
abbrev pub base_messages : List (HostProtocolMessage × Bytes)
base_messages =
    (HostProtocolMessage.reset, 2 ∷ [])
    ∷ (HostProtocolMessage.get_state, 3 ∷ [])
    ∷ (HostProtocolMessage.ack_state State.disabled, 4 ∷ 1 ∷ [])
    ∷ (HostProtocolMessage.ack_state State.enabled, 4 ∷ 0 ∷ [])
    ∷ (HostProtocolMessage.ack_state State.firmware_upgrade, 4 ∷ 2 ∷ [])
    ∷ (HostProtocolMessage.ack_state State.unknown, 4 ∷ 3 ∷ [])
    ∷ (HostProtocolMessage.challenge_request 0, 5 ∷ 0 ∷ [])
    ∷ (HostProtocolMessage.challenge_result (replicate 32 0), 6 ∷ replicate 32 0)
    ∷ (HostProtocolMessage.postcard_error PostcardError.deser, 7 ∷ 0 ∷ [])
    ∷ (HostProtocolMessage.postcard_error PostcardError.over_full, 7 ∷ 1 ∷ [])
    ∷ (HostProtocolMessage.inappropriate_message State.disabled, 8 ∷ 1 ∷ [])
    ∷ (HostProtocolMessage.inappropriate_message State.enabled, 8 ∷ 0 ∷ [])
    ∷ (HostProtocolMessage.inappropriate_message State.firmware_upgrade, 8 ∷ 2 ∷ [])
    ∷ (HostProtocolMessage.inappropriate_message State.unknown, 8 ∷ 3 ∷ [])
    ∷ []
