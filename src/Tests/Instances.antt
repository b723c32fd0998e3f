-- ===== src/Tests/Instances.antt =====
-- Applications of the theorems on named instances.
use rp2350_relay_6ch.Prelude.{◌≡◌, refl, ◌⊎◌, String, none, some, true, false, str_eq}
use rp2350_relay_6ch.Prelude.Int.{pos}
use rp2350_relay_6ch.Errors.{ok}
use rp2350_relay_6ch.Value.{Fields, end, field, int, str, obj}
use rp2350_relay_6ch.Config.{
  System, RelayInstanceConfig, converted, refused, ratio, not_found, loaded,
}
use rp2350_relay_6ch.Config.Resolve.{coerce_instance}
use rp2350_relay_6ch.Daemon.State.{DaemonConfig}
use rp2350_relay_6ch.Daemon.Args.{DaemonArgs, config_from_args}
use rp2350_relay_6ch.Daemon.Runnable.{IsRunnable, config_from_args-IsRunnable}
use rp2350_relay_6ch.Relayctl.{CtlArgs, socket_of}
use rp2350_relay_6ch.Relayctl.Agrees.{daemon_for, socket_of-agrees}
use rp2350_relay_6ch.Tests.{python}
use rp2350_relay_6ch.Config.Valid.{IsValid, coerce_instance-IsValid}

abbrev pub system : System
system = record {
  environ = λ n. none;
  expand_path = λ p. p;
  default_config_path = "/home/u/.config/rp2350-relay/config.toml";
  load_toml = λ p. not_found;
  to_int = λ v. elim v [ int n ↦ converted n | _ ↦ refused ];
  to_float = λ v. converted (ratio (pos 2) 0);
  strip_lower = λ s. s;
}

-- an instance of the file, selected by its USB serial
abbrev lab : Fields
lab = field "serial" (str "A1") (field "socket" (str "/run/lab.sock") end)

abbrev lab_config : RelayInstanceConfig
lab_config = record {
  name = "lab";
  selector_type = "serial";
  selector_value = "A1";
  socket_path = "/run/lab.sock";
  baud = pos 115200;
  timeout = ratio (pos 2) 0;
  retries = pos 1;
  reconnect_interval = ratio (pos 2) 0;
  wait_device = false;
  log_level = "INFO";
  config_path = "/c";
}

lab-coerced : coerce_instance system "lab" lab "/c" ≡ ok lab_config
unfolding coerce_instance
lab-coerced = refl

coerce_instance-IsValid_example :
    (kind : String) × (value : String) × ((kind ≡ "port") ⊎ (kind ≡ "serial"))
    × (str_eq value "" ≡ false)
    × IsValid kind value lab_config
coerce_instance-IsValid_example =
    coerce_instance-IsValid system "lab" "/c" lab lab_config lab-coerced

-- --serial A1 --socket /run/lab.sock --retries 3
abbrev direct : DaemonArgs
direct = record {
  instance_name = none;
  config = none;
  port = none;
  serial = some "A1";
  socket = some "/run/lab.sock";
  baud = none;
  timeout = none;
  retries = some (pos 3);
  reconnect_interval = none;
  wait_device = some true;
  log_level = none;
}

abbrev direct_daemon : DaemonConfig
direct_daemon = record {
  selector_type = "serial";
  selector_value = "A1";
  socket_path = "/run/lab.sock";
  baud = pos 115200;
  timeout = ratio (pos 2) 0;
  retries = pos 3;
  reconnect_interval = ratio (pos 1) 0;
  wait_device = true;
}

direct-configured : config_from_args system python direct ≡ ok direct_daemon
unfolding config_from_args
direct-configured = refl

config_from_args-IsRunnable_example : IsRunnable direct_daemon
config_from_args-IsRunnable_example =
    config_from_args-IsRunnable system python direct direct_daemon direct-configured

-- the file with the instance of above
abbrev machine : System
machine = record system {
  load_toml = λ p. loaded (obj (field "instances" (obj (field "lab" (obj lab) end)) end));
}

-- --instance lab --socket /tmp/other.sock
abbrev asked : CtlArgs
asked = record {
  instance_name = some "lab";
  config = none;
  socket = some "/tmp/other.sock";
  timeout = pos 2000;
  json_output = false;
}

abbrev served : DaemonConfig
served = record direct_daemon {
  socket_path = "/tmp/other.sock";
  retries = pos 1;
  reconnect_interval = ratio (pos 2) 0;
  wait_device = false;
}

lab-served : config_from_args machine python (daemon_for asked) ≡ ok served
unfolding config_from_args
lab-served = refl

socket_of-agrees_example : socket_of machine python asked ≡ ok "/tmp/other.sock"
socket_of-agrees_example = socket_of-agrees machine python asked "lab" served refl lab-served
