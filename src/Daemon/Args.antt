-- ===== src/Daemon/Args.antt =====
-- The configuration of a daemon from its command line (daemon.py, config_from_args).
use rp2350_relay_6ch.Prelude.{String, Bool, false, Option, none, some, if◌then◌else◌}
use rp2350_relay_6ch.Prelude.Int.{ℤ, pos, ltb_ℤ}
use rp2350_relay_6ch.Errors.{Result, ok, err, Done, and_then, validation}
use rp2350_relay_6ch.Value.{
  Python, Value, Fields, end, field, null, bool, int, float, str, other, filled,
}
use rp2350_relay_6ch.Config.{
  System, RelayInstanceConfig, Number, ratio, nan, infinity, minus_infinity, at_most_zero,
}
use rp2350_relay_6ch.Config.Resolve.{resolve_instance_config}
use rp2350_relay_6ch.Daemon.State.{DaemonConfig}

-- what argparse made of the command line; it refuses --port beside --serial
pub record DaemonArgs : Type 0 where
  pub instance_name : Option String
  pub config : Option String
  pub port : Option String
  pub serial : Option String
  pub socket : Option String
  pub baud : Option ℤ
  pub timeout : Option Number
  pub retries : Option ℤ
  pub reconnect_interval : Option Number
  pub wait_device : Option Bool
  pub log_level : Option String

-- a float among the overrides
abbrev pub number_value : Number → Value
number_value (ratio p q) = float p q
number_value nan = other "nan"
number_value infinity = other "inf"
number_value minus_infinity = other "-inf"

abbrev pub given {ℓ} : {A : Type ℓ} → (A → Value) → Option A → Value
given f none = null
given f (some a) = f a

-- `overrides={…}`
abbrev pub overrides : DaemonArgs → Fields
overrides args = field "port" (given str args.port) (
    field "serial" (given str args.serial) (
      field "socket" (given str args.socket) (
        field "baud" (given int args.baud) (
          field "timeout" (given number_value args.timeout) (
            field "retries" (given int args.retries) (
              field "reconnect_interval" (given number_value args.reconnect_interval) (
                field "wait_device" (given bool args.wait_device)
                  (field "log_level" (given str args.log_level) end))))))))

abbrev pub of_instance : RelayInstanceConfig → DaemonConfig
of_instance r = record {
  selector_type = r.selector_type;
  selector_value = r.selector_value;
  socket_path = r.socket_path;
  baud = r.baud;
  timeout = r.timeout;
  retries = r.retries;
  reconnect_interval = r.reconnect_interval;
  wait_device = r.wait_device;
}

abbrev pub or_default {ℓ} : {A : Type ℓ} → A → Option A → A
or_default d none = d
or_default d (some a) = a

-- the selector of a daemon without an instance: the port goes first
unfoldable pub direct_selector : Option String → Option String → Result (String × String)
direct_selector (some port) serial = ok ("port", port)
direct_selector none (some serial) = ok ("serial", serial)
direct_selector none none =
    err (validation "--instance or exactly one of --port/--serial is required")

abbrev pub require_socket : Option String → Result String
require_socket none = err (validation "--socket is required")
require_socket (some socket) = ok socket

-- the numbers in range
unfoldable pub check_numbers : Number → ℤ → Number → Done
check_numbers timeout retries reconnect_interval =
    if at_most_zero timeout
    then err (validation "--timeout must be positive")
    else if ltb_ℤ retries (pos 0)
    then err (validation "--retries must be non-negative")
    else if at_most_zero reconnect_interval
    then err (validation "--reconnect-interval must be positive")
    else ok tt

-- `config_from_args` without an instance
unfoldable pub direct_config : DaemonArgs → Result DaemonConfig
unfolding direct_selector check_numbers
direct_config args =
    let timeout = or_default (ratio (pos 2) 0) args.timeout in
    let retries = or_default (pos 1) args.retries in
    let reconnect_interval = or_default (ratio (pos 1) 0) args.reconnect_interval in
    and_then (direct_selector (filled args.port) (filled args.serial)) (λ chosen.
      and_then (require_socket (filled args.socket)) (λ socket.
        and_then (check_numbers timeout retries reconnect_interval) (λ _. ok (record {
          selector_type = chosen.0;
          selector_value = chosen.1;
          socket_path = socket;
          baud = or_default (pos 115200) args.baud;
          timeout = timeout;
          retries = retries;
          reconnect_interval = reconnect_interval;
          wait_device = or_default false args.wait_device;
        }))))

module _ (sys : System) (py : Python) where
  unfoldable pub config_by : DaemonArgs → Option String → Result DaemonConfig
  unfolding direct_config resolve_instance_config
  config_by args none = direct_config args
  config_by args (some name) =
      and_then (resolve_instance_config sys py (some name) args.config (overrides args) sys.environ)
        (λ r. ok (of_instance r))

  -- config_from_args
  unfoldable pub config_from_args : DaemonArgs → Result DaemonConfig
  unfolding config_by
  config_from_args args = config_by args (filled args.instance_name)
