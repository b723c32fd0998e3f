-- ===== src/Config/Resolve.antt =====
-- resolve_instance_config and _coerce_instance of config.py.
use rp2350_relay_6ch.Prelude.{
  String, false, not, ◌<>◌, Option, none, some, List, [], ◌∷◌, keep, member, join, str_eq,
  if◌then◌else◌,
}
use rp2350_relay_6ch.Prelude.Int.{pos}
use rp2350_relay_6ch.Errors.{Result, ok, err, Done, and_then, validation}
use rp2350_relay_6ch.Value.{
  Python, Value, Fields, bool, int, float, str, obj, lookup, get, get_or, keys,
}
use rp2350_relay_6ch.Config.{
  Loaded, not_found, invalid, failed, loaded, System, RelayInstanceConfig, env_fields,
  allowed_instance_keys, apply_env, apply_overrides, or_else, or_text, coerce_str, optional_str,
  coerce_int, coerce_float, coerce_bool,
}

module _ (sys : System) where
  -- configured_config_path
  unfoldable pub configured_config_path : Option String → String
  configured_config_path explicit_path =
      sys.expand_path (
        or_text (or_else explicit_path (sys.environ "RP2350_RELAY_CONFIG")) sys.default_config_path)

  root_of : String → Loaded → Result Fields
  root_of path not_found = err (validation ("config file not found: " <> path))
  root_of path (invalid m) = err (validation ("config file is invalid TOML: " <> m))
  root_of path (failed e) = err e
  root_of path (loaded (obj d)) = ok d
  root_of path (loaded _) = err (validation "config root must be a TOML table")

  unfoldable pub load_config : Option String → Result Fields
  unfolding configured_config_path root_of
  load_config path =
      let config_path = configured_config_path path in
      root_of config_path (sys.load_toml config_path)

  unfoldable pub required_path : Value → String → Result String
  unfolding coerce_str
  required_path v name = and_then (coerce_str v name) (λ text.
      if str_eq text ""
      then err (validation (name <> " is required"))
      else ok (sys.expand_path text))

  -- `bool(port) == bool(serial)` is refused; the type and the value of the selector
  unfoldable pub selector : Option String → Option String → Result (String × String)
  selector (some port) none = ok ("port", port)
  selector none (some serial) = ok ("serial", serial)
  selector _ _ = err (validation "instance must define exactly one of port or serial")

  abbrev pub value_or : Value → String → Fields → Value
  value_or default key values = get_or default (lookup key values)

  -- the fields after the selector and the socket, in the order of the keyword arguments
  unfoldable pub coerce_settings :
      String → Fields → String → String × String → String → Result RelayInstanceConfig
  unfolding coerce_int coerce_float coerce_bool coerce_str lookup
  coerce_settings name values config_path (selector_type, selector_value) socket_path =
      and_then (coerce_int sys (value_or (int (pos 115200)) "baud" values) "baud" (pos 1) "1")
        (λ baud.
          and_then (coerce_float sys (value_or (float (pos 2) 0) "timeout" values) "timeout")
            (λ timeout.
              and_then
                (coerce_int sys (value_or (int (pos 1)) "retries" values) "retries" (pos 0) "0")
                (λ retries.
                  and_then
                    (coerce_float sys (value_or (float (pos 1) 0) "reconnect_interval" values)
                      "reconnect_interval")
                    (λ reconnect_interval.
                      and_then
                        (coerce_bool sys (value_or (bool false) "wait_device" values) "wait_device")
                        (λ wait_device.
                          and_then
                            (coerce_str (value_or (str "INFO") "log_level" values) "log_level")
                            (λ log_level. ok (record {
                              name = name;
                              selector_type = selector_type;
                              selector_value = selector_value;
                              socket_path = socket_path;
                              baud = baud;
                              timeout = timeout;
                              retries = retries;
                              reconnect_interval = reconnect_interval;
                              wait_device = wait_device;
                              log_level = log_level;
                              config_path = config_path;
                            })))))))

  -- _coerce_instance
  unfoldable pub coerce_instance : String → Fields → String → Result RelayInstanceConfig
  unfolding optional_str selector required_path coerce_settings get
  coerce_instance name values config_path =
      and_then (optional_str (get "port" values) "port") (λ port.
        and_then (optional_str (get "serial" values) "serial") (λ serial.
          and_then (selector port serial) (λ chosen.
            and_then (required_path (get "socket" values) "socket")
              (λ socket_path. coerce_settings name values config_path chosen socket_path))))

  -- _validate_instance_keys
  unfoldable pub validate_instance_keys : Python → Fields → String → Done
  unfolding keys
  validate_instance_keys py values instance_name =
      refuse (keep (λ k. not (member k allowed_instance_keys)) (keys values))
    where
      refuse : List String → Done
      refuse [] = ok tt
      refuse (k ∷ ks) = err (
          validation (
            "instance "
            <> instance_name
            <> " has unknown config keys: "
            <> join ", " (py.sorted (k ∷ ks))))

  unfoldable pub instances_of : Value → Result Fields
  instances_of (obj d) = ok d
  instances_of _ = err (validation "config must contain an [instances] table")

  unfoldable pub instance_of : String → Value → Result Fields
  instance_of name (obj d) = ok d
  instance_of name _ = err (validation ("instance not found in config: " <> name))

  unfoldable pub name_of : Option String → Result String
  name_of none = err (validation "--instance is required")
  name_of (some name) =
      if str_eq name "" then err (validation "--instance is required") else ok name

  -- the values of the file, then those of the environment, then the overrides
  unfoldable pub merged : Fields → Fields → (String → Option String) → Fields
  unfolding apply_env apply_overrides
  merged values overrides env = apply_overrides overrides (apply_env env_fields env values)

  -- resolve_instance_config
  unfoldable pub resolve_instance_config :
      Python
      → Option String
      → Option String
      → Fields
      → (String → Option String)
      → Result RelayInstanceConfig
  unfolding name_of load_config instances_of instance_of validate_instance_keys merged
      coerce_instance get
  resolve_instance_config py instance config_path overrides env =
      and_then (name_of (or_else instance (env "RP2350_RELAY_INSTANCE"))) (λ instance_name.
        let path =
          sys.expand_path
            (or_text (or_else config_path (env "RP2350_RELAY_CONFIG")) sys.default_config_path) in
        and_then (load_config (some path)) (λ payload.
          and_then (instances_of (get "instances" payload)) (λ instances.
            and_then (instance_of instance_name (get instance_name instances)) (λ values.
              and_then (validate_instance_keys py values instance_name)
                (λ _. coerce_instance instance_name (merged values overrides env) path)))))
