-- ===== src/Protocol.antt =====
-- The constants of host/rp2350_relay_6ch/constants.py.
use rp2350_relay_6ch.Prelude.{
  ℕ, ◌-◌, ◌^◌, String, Bool, true, not, ◌||◌, clear_low, ◌==◌, if◌then◌else◌,
}
use rp2350_relay_6ch.Prelude.Int.{ℤ, pos, negsuc, ltb_ℤ, leb_ℤ}

abbrev pub group_relay : ℕ
group_relay = 64

abbrev pub protocol_version : ℕ
protocol_version = 9

abbrev pub command_model_version : ℕ
command_model_version = 3

abbrev pub hardware_name : String
hardware_name = "Waveshare RP2350-Relay-6CH"

abbrev pub relay_count : ℕ
relay_count = 6

abbrev pub relay_mask : ℕ
relay_mask = 2 ^ relay_count - 1

abbrev pub pulse_min_ms : ℕ
pulse_min_ms = 10

abbrev pub pulse_max_ms : ℕ
pulse_max_ms = 60000

abbrev pub op_read : ℕ
op_read = 0

abbrev pub op_read_rsp : ℕ
op_read_rsp = 1

abbrev pub op_write : ℕ
op_write = 2

abbrev pub op_write_rsp : ℕ
op_write_rsp = 3

-- The CMD_ codes, one for each method of RelayClient.
pub data Code : Type 0 where
  identity capabilities build_info get get_all status health transport safety watchdog set set_all
        pulse off_all heartbeat reboot bootsel :
      Code

unfoldable pub code_number : Code → ℕ
code_number identity = 0
code_number capabilities = 1
code_number build_info = 2
code_number get = 0x10
code_number get_all = 0x11
code_number status = 0x12
code_number health = 0x13
code_number transport = 0x14
code_number safety = 0x15
code_number watchdog = 0x16
code_number set = 0x20
code_number set_all = 0x21
code_number pulse = 0x22
code_number off_all = 0x23
code_number heartbeat = 0x30
code_number reboot = 0x40
code_number bootsel = 0x41

-- DEVICE_ERROR_NAMES.get(rc, "unknown")
unfoldable pub device_error_name : ℤ → String
device_error_name (pos n) =
    if n == 1
    then "decode"
    else if n == 2
    then "invalid_argument"
    else if n == 3
    then "busy"
    else if n == 4
    then "relay_io"
    else if n == 5
    then "reboot_unavailable"
    else if n == 6
    then "reboot_failed"
    else "unknown"
device_error_name (negsuc n) = "unknown"

-- `channel < 0 or channel >= RELAY_COUNT`
abbrev pub off_board : ℤ → Bool
off_board n = ltb_ℤ n (pos 0) || leb_ℤ (pos relay_count) n

-- `state < 0 or state & ~RELAY_MASK`
abbrev pub off_mask : ℤ → Bool
off_mask (pos n) = not (clear_low relay_count n == 0)
off_mask (negsuc n) = true

-- `duration_ms < PULSE_MIN_MS or duration_ms > PULSE_MAX_MS`
abbrev pub off_pulse : ℤ → Bool
off_pulse n = ltb_ℤ n (pos pulse_min_ms) || ltb_ℤ (pos pulse_max_ms) n
