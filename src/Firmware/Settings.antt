-- ===== src/Firmware/Settings.antt =====
-- `initialize_sd` of firmware/src/server.rs: the settings that the SoftDevice is enabled with. Those
-- that are left at their defaults are not among them.
use prime_ble_firmware.Base.{ℕ, ◌+◌, ◌*◌, ◌≤◌, ◌<◌, ◌≡◌, arith, length, refl}
use prime_ble_firmware.Consts.{app_mtu, att_mtu, max_device_name_len, default_device_name}
use prime_ble_firmware.Firmware.Server.{gap_conn_param, data_length}

-- `NRF_CLOCK_LF_SRC_XTAL`, and the accuracy in ppm.
pub data ClockSource : Type 0 where
  xtal : ClockSource

pub record Clock : Type 0 where
  pub source : ClockSource
  pub rc_ctiv : ℕ
  pub rc_temp_ctiv : ℕ
  pub accuracy_ppm : ℕ

pub record GapDeviceName : Type 0 where
  pub current_len : ℕ
  pub max_len : ℕ

-- `nrf_softdevice::Config`, the fields that are set. The table of attributes has its default size.
pub record Config : Type 0 where
  pub clock : Clock
  pub conn_count : ℕ
  pub event_length : ℕ
  pub att_mtu : ℕ
  pub adv_set_count : ℕ
  pub periph_role_count : ℕ
  pub gap_device_name : GapDeviceName
  pub hvn_tx_queue_size : ℕ

unfoldable pub initialize_sd : Config
initialize_sd = record {
  clock = record { source = ClockSource.xtal; rc_ctiv = 0; rc_temp_ctiv = 0; accuracy_ppm = 20 };
  conn_count = 1;
  event_length = 400;
  att_mtu = att_mtu;
  adv_set_count = 1;
  periph_role_count = 1;
  gap_device_name = record { current_len = 0; max_len = max_device_name_len };
  hvn_tx_queue_size = 3;
}

-- The settings fit together: a notification of a full packet is one ATT message of 3 bytes more and,
-- with 4 bytes of L2CAP, one packet of the link; a connection event, in units of 1.25 ms, may last
-- longer than the longest interval between two; the supervision timeout is more than twice the
-- longest interval, as the Bluetooth specification asks, and the intervals are in order; and the
-- default name fits the storage for the name.
pub initialize_sd-fits :
    (initialize_sd.att_mtu ≡ app_mtu + 3)
    × (data_length.max_tx_octets ≡ initialize_sd.att_mtu + 4)
    × (gap_conn_param.max_conn_interval ≤ initialize_sd.event_length)
    × ((1 + gap_conn_param.slave_latency) * gap_conn_param.max_conn_interval * 125 * 2
        < gap_conn_param.conn_sup_timeout * 1000)
    × (gap_conn_param.min_conn_interval ≤ gap_conn_param.max_conn_interval)
    × (length default_device_name ≤ initialize_sd.gap_device_name.max_len)
unfolding initialize_sd
initialize_sd-fits = (refl, refl, omega arith, omega arith, omega arith, omega arith)
