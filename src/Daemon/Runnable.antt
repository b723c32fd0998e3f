-- ===== src/Daemon/Runnable.antt =====
-- What a daemon's configuration guarantees, whichever way it was given.
use rp2350_relay_6ch.Prelude.{
  String, false, Option, none, some, ◌≡◌, ◌⊎◌, inl, inr, sym, ap, ◌∙◌, subst, str_eq, arith,
  Bool-cases,
}
use rp2350_relay_6ch.Prelude.Int.{ℤ, pos, ltb_ℤ}
use rp2350_relay_6ch.Errors.{ok, and_then-eq-ok}
use rp2350_relay_6ch.Value.{Python, Fields, filled, get}
use rp2350_relay_6ch.Config.{
  System, RelayInstanceConfig, Number, ratio, at_most_zero, or_else, or_text,
}
use rp2350_relay_6ch.Config.Resolve.{
  resolve_instance_config, name_of, load_config, instances_of, instance_of, validate_instance_keys,
  merged,
}
use rp2350_relay_6ch.Config.Valid.{coerce_instance-IsValid}
use rp2350_relay_6ch.Daemon.State.{DaemonConfig}
use rp2350_relay_6ch.Daemon.Args.{
  DaemonArgs, overrides, of_instance, or_default, direct_selector, require_socket, check_numbers,
  direct_config, config_by, config_from_args,
}

pub record IsRunnable (c : DaemonConfig) : Type 0 where
  pub kind : (c.selector_type ≡ "port") ⊎ (c.selector_type ≡ "serial")
  pub value : str_eq c.selector_value "" ≡ false
  pub timeout : at_most_zero c.timeout ≡ false
  pub retries : ltb_ℤ c.retries (pos 0) ≡ false
  pub reconnect_interval : at_most_zero c.reconnect_interval ≡ false

abbrev IsFull : Option String → Type 0
IsFull none = Unit {0}
IsFull (some s) = str_eq s "" ≡ false

filled-IsFull : (o : Option String) → IsFull (filled o)
filled-IsFull none = tt
filled-IsFull (some s) = elim (Bool-cases (str_eq s "")) [ inl h ↦ rw h tt | inr h ↦ rw h h ]

direct_selector-IsFull :
    (port serial : Option String) (chosen : String × String)
    → IsFull port
    → IsFull serial
    → direct_selector port serial ≡ ok chosen
    → ((chosen.0 ≡ "port") ⊎ (chosen.0 ≡ "serial")) × (str_eq chosen.1 "" ≡ false)
unfolding direct_selector
direct_selector-IsFull (some p) serial chosen fp fs h = ground arith
direct_selector-IsFull none (some s) chosen fp fs h = ground arith
direct_selector-IsFull none none chosen fp fs h = absurd (cc)

check_numbers-bound :
    (timeout interval : Number) (retries : ℤ)
    → check_numbers timeout retries interval ≡ ok tt
    → (at_most_zero timeout ≡ false)
      × (ltb_ℤ retries (pos 0) ≡ false)
      × (at_most_zero interval ≡ false)
unfolding check_numbers
check_numbers-bound timeout interval retries h = ground arith

direct_config-IsRunnable :
    (args : DaemonArgs) (c : DaemonConfig) → direct_config args ≡ ok c → IsRunnable c
unfolding direct_config
direct_config-IsRunnable args c h =
    let timeout = or_default (ratio (pos 2) 0) args.timeout in
    let retries = or_default (pos 1) args.retries in
    let interval = or_default (ratio (pos 1) 0) args.reconnect_interval in
    let (chosen, ch, h1) =
      and_then-eq-ok (direct_selector (filled args.port) (filled args.serial)) _ h in
    let (socket, so, h2) = and_then-eq-ok (require_socket (filled args.socket)) _ h1 in
    let (u, nu, h3) = and_then-eq-ok (check_numbers timeout retries interval) _ h2 in
    let (kind, value) =
      direct_selector-IsFull (filled args.port) (filled args.serial) chosen
        (filled-IsFull args.port) (filled-IsFull args.serial) ch in
    let (timeout_ok, retries_ok, interval_ok) = check_numbers-bound timeout interval retries nu in
    ground (arith, h3)

module _ (sys : System) (py : Python) where
  resolved-IsRunnable :
      (name config : Option String) (given : Fields) (env : String → Option String)
      (r : RelayInstanceConfig)
      → resolve_instance_config sys py name config given env ≡ ok r
      → IsRunnable (of_instance r)
  unfolding resolve_instance_config
  resolved-IsRunnable name config given env r h =
      let path =
        sys.expand_path
          (or_text (or_else config (env "RP2350_RELAY_CONFIG")) sys.default_config_path) in
      let (instance_name, n, h1) =
        and_then-eq-ok (name_of sys (or_else name (env "RP2350_RELAY_INSTANCE"))) _ h in
      let (payload, p, h2) = and_then-eq-ok (load_config sys (some path)) _ h1 in
      let (instances, i, h3) = and_then-eq-ok (instances_of sys (get "instances" payload)) _ h2 in
      let (values, v, h4) =
        and_then-eq-ok (instance_of sys instance_name (get instance_name instances)) _ h3 in
      let (u, w, h5) = and_then-eq-ok (validate_instance_keys sys py values instance_name) _ h4 in
      let (kind, value, k, f, valid) =
        coerce_instance-IsValid sys instance_name path (merged sys values given env) r h5 in
      record {
        kind = subst (λ t. (t ≡ "port") ⊎ (t ≡ "serial")) (sym valid.selector_type) k;
        value = ap (λ t. str_eq t "") valid.selector_value ∙ f;
        timeout = valid.timeout;
        retries = valid.retries;
        reconnect_interval = valid.reconnect_interval;
      }

  config_by-IsRunnable :
      (args : DaemonArgs) (name : Option String) (c : DaemonConfig)
      → config_by sys py args name ≡ ok c
      → IsRunnable c
  unfolding config_by
  config_by-IsRunnable args none c h = direct_config-IsRunnable args c h
  config_by-IsRunnable args (some name) c h =
      let (r, found, same) =
        and_then-eq-ok
          (resolve_instance_config sys py (some name) args.config (overrides args) sys.environ)
          (λ r. ok (of_instance r)) h in
      subst IsRunnable (ground (arith, same))
        (resolved-IsRunnable (some name) args.config (overrides args) sys.environ r found)

  -- A daemon that is given a configuration, by a named instance or by its options alone, has a
  -- selector of type port or serial whose value is not empty, retries that are not negative, and
  -- a timeout and a reconnect interval that are not zero or negative.
  pub config_from_args-IsRunnable :
      (args : DaemonArgs) (c : DaemonConfig) → config_from_args sys py args ≡ ok c → IsRunnable c
  unfolding config_from_args
  config_from_args-IsRunnable args c h = config_by-IsRunnable args (filled args.instance_name) c h
