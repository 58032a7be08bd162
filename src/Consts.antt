-- ===== src/Consts.antt =====
-- consts/src/lib.rs (built with the feature `dle`, as both host-protocol and firmware ask for)
-- and the constants of bootloader/src/consts.rs (built without the feature `debug`).
use prime_ble_firmware.Base.{ℕ, zero, suc, ◌+◌, ◌-◌, ◌/◌, ◌%◌, List, [], ◌∷◌}

abbrev pub app_mtu : ℕ
app_mtu = 244

abbrev pub att_mtu : ℕ
att_mtu = app_mtu + 3

-- Where the words of the secret are seen in the address space.
abbrev pub uicr_secret_start : ℕ
uicr_secret_start = 0x10001080

abbrev pub uicr_secret_size : ℕ
uicr_secret_size = 0x20

-- `UICR_SEAL_INDEX`, the bootloader's `SEAL_IDX`.
abbrev pub uicr_seal_index : ℕ
uicr_seal_index = 8

-- `UICR_SEALED_SECRET`, the bootloader's `SEALED_SECRET`.
abbrev pub uicr_sealed_secret : ℕ
uicr_sealed_secret = 0x5A5A5A5A

-- `UICR_SEALED_WIPED`, the bootloader's `SEALED_WIPED`.
abbrev pub uicr_sealed_wiped : ℕ
uicr_sealed_wiped = 0x42424242

abbrev pub base_bootloader_addr : ℕ
base_bootloader_addr = 0x27000

abbrev pub base_app_addr : ℕ
base_app_addr = 0x1B400

abbrev pub signature_header_size : ℕ
signature_header_size = 0x100

abbrev pub int_vector_table_base : ℕ
int_vector_table_base = base_app_addr + signature_header_size

abbrev pub app_size : ℕ
app_size = base_bootloader_addr - base_app_addr

abbrev pub flash_page : ℕ
flash_page = 4096

-- host-protocol: the largest frame that the two sides exchange.
abbrev pub max_msg_size : ℕ
max_msg_size = 270

abbrev pub max_device_name_len : ℕ
max_device_name_len = 31

-- `BT_MAX_NUM_PKT` of firmware/src/main.rs.
abbrev pub bt_max_num_pkt : ℕ
bt_max_num_pkt = 16

-- Width of the machine's words: `u32`, and `usize` on the target.
abbrev pub u32_mod : ℕ
u32_mod = 4294967296

-- `to_le_bytes`, on `n` bytes.
abbrev pub le_bytes : ℕ → ℕ → List ℕ
le_bytes zero x = []
le_bytes (suc n) x = x % 256 ∷ le_bytes n (x / 256)

abbrev pub nus_uuid : ℕ
nus_uuid = 0x6E400001B5A3F393E0A9E50E24DCCA9E

abbrev pub services_list : List (List ℕ)
services_list = le_bytes 16 nus_uuid ∷ []

-- "Passport".
abbrev pub short_name : List ℕ
short_name = b'P' ∷ b'a' ∷ b's' ∷ b's' ∷ b'p' ∷ b'o' ∷ b'r' ∷ b't' ∷ []

-- "Passport Prime".
abbrev pub default_device_name : List ℕ
default_device_name =
    b'P' ∷ b'a' ∷ b's' ∷ b's' ∷ b'p' ∷ b'o' ∷ b'r' ∷ b't' ∷ b' ' ∷ b'P' ∷ b'r' ∷ b'i' ∷ b'm' ∷ b'e'
    ∷ []
