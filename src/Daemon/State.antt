-- ===== src/Daemon/State.antt =====
-- The state of class RelayDaemon, and the methods that only change it: which client is held, and
-- what is known of a reboot that was asked for.
use rp2350_relay_6ch.Prelude.{
  ℕ, suc, String, Bool, true, false, Option, none, some, [], str_eq, starts_with, if◌then◌else◌,
}
use rp2350_relay_6ch.Errors.{Exc}
use rp2350_relay_6ch.Config.{Number}
use rp2350_relay_6ch.Value.{Value, Fields, end, field, null, bool, int, str}
use rp2350_relay_6ch.Prelude.Int.{ℤ, pos}
use rp2350_relay_6ch.Action.{Act, pure, modify, gets, swallow, ◌>>=◌, ◌>>◌}
use rp2350_relay_6ch.Daemon.World.{
  Trace, World, Probe, close_client, usb_instance, monotonic_ms, select_serial,
}

-- DaemonConfig, without the heartbeat interval, which is a constant.
pub record DaemonConfig : Type 0 where
  pub selector_type : String
  pub selector_value : String
  pub socket_path : String
  pub baud : ℤ
  pub timeout : Number
  pub retries : ℤ
  pub reconnect_interval : Number
  pub wait_device : Bool

-- `trace` is what the daemon has done outside; `stopped` is the event `_stop`.
pub record Daemon : Type 0 where
  pub client : Option ℕ
  pub connected : Bool
  pub current_port : Option String
  pub reconnect_attempts : ℕ
  pub last_error : Option String
  pub reboot_recovery : Bool
  pub reboot_started_at : Option ℕ
  pub reboot_pre_status : Option Fields
  pub reboot_usb_instance : Option String
  pub reboot_missing_seen : Bool
  pub stopped : Bool
  pub fatal_error : Option Exc
  pub trace : Trace

-- RelayDaemon.__init__
abbrev pub new_daemon : Daemon
new_daemon = record {
  client = none;
  connected = false;
  current_port = none;
  reconnect_attempts = 0;
  last_error = none;
  reboot_recovery = false;
  reboot_started_at = none;
  reboot_pre_status = none;
  reboot_usb_instance = none;
  reboot_missing_seen = false;
  stopped = false;
  fatal_error = none;
  trace = [];
}

-- what is done outside, as part of a method
abbrev pub outside : {A : Type 0} → Act Trace A → Act Daemon A
outside m d = let (r, t) = m d.trace in (r, record d { trace = t })

unfoldable pub missing_device_text : String
missing_device_text = "no relay device found with USB serial "

-- daemon._is_missing_selected_device, of the message of the exception
unfoldable pub is_missing_selected_device : String → Bool
unfolding missing_device_text
is_missing_selected_device m = starts_with m missing_device_text

abbrev pub text_or_null : Option String → Value
text_or_null none = null
text_or_null (some s) = str s

-- `port or ""`
abbrev pub text_or_empty : Option String → String
text_or_empty none = ""
text_or_empty (some s) = s

-- RelayDaemon.daemon_status
unfoldable pub daemon_status : DaemonConfig → Daemon → Fields
daemon_status config d = field "connected" (bool d.connected) (
    field "selector_type" (str config.selector_type) (
      field "selector_value" (str config.selector_value) (
        field "current_port" (text_or_null d.current_port) (
          field "socket_path" (str config.socket_path) (
            field "reconnect_attempts" (int (pos d.reconnect_attempts)) (
              field "last_error" (text_or_null d.last_error)
                (field "daemon_version" (str "0.9.0") end)))))))

abbrev pub adopted : Probe → Daemon → Daemon
adopted probe d = record d {
  client = some probe.client;
  connected = true;
  current_port = some probe.port;
  reconnect_attempts = 0;
  last_error = none;
  reboot_recovery = false;
  reboot_started_at = none;
  reboot_pre_status = none;
  reboot_usb_instance = none;
  reboot_missing_seen = false;
}

abbrev pub disconnected : String → Bool → Daemon → Daemon
disconnected m count_attempt d = record d {
  client = none;
  connected = false;
  current_port = none;
  reconnect_attempts = if count_attempt then suc d.reconnect_attempts else d.reconnect_attempts;
  last_error = some m;
  reboot_recovery = false;
  reboot_started_at = none;
  reboot_pre_status = none;
  reboot_usb_instance = none;
  reboot_missing_seen = false;
}

abbrev pub recovering : Fields → ℕ → Option String → Daemon → Daemon
recovering pre_reboot_status now usb_id d = record d {
  client = none;
  connected = false;
  current_port = none;
  last_error = some "firmware reboot accepted; waiting for USB re-enumeration";
  reboot_recovery = true;
  reboot_started_at = some now;
  reboot_pre_status = some pre_reboot_status;
  reboot_usb_instance = usb_id;
  reboot_missing_seen = false;
}

-- RelayDaemon._record_reboot_reconnect_failure
unfoldable pub record_reboot_reconnect_failure : String → Act Daemon (Unit {0})
record_reboot_reconnect_failure m =
    modify (λ d. record d { reconnect_attempts = suc d.reconnect_attempts; last_error = some m })

-- RelayDaemon._fail_reconnect
unfoldable pub fail_reconnect : Exc → Act Daemon (Unit {0})
fail_reconnect e = modify (λ d. record d { fatal_error = some e; stopped = true })

module _ (world : World) where
  unfoldable pub close_held : Option ℕ → Act Daemon (Unit {0})
  unfolding close_client
  close_held none = pure tt
  close_held (some c) = outside (close_client world c)

  -- RelayDaemon._adopt_probe: the old client, if any, is closed last.
  unfoldable pub adopt_probe : Probe → Act Daemon (Unit {0})
  unfolding close_held
  adopt_probe probe = do old ← gets (λ d. d.client); modify (adopted probe); close_held old

  -- RelayDaemon._mark_disconnected
  unfoldable pub mark_disconnected : String → Bool → Act Daemon (Unit {0})
  unfolding close_held
  mark_disconnected m count_attempt = do
    old ← gets (λ d. d.client)
    modify (disconnected m count_attempt)
    swallow (close_held old)

  -- RelayDaemon._enter_reboot_recovery
  unfoldable pub enter_reboot_recovery : Fields → Option String → ℕ → Act Daemon (Unit {0})
  unfolding close_client usb_instance monotonic_ms
  enter_reboot_recovery pre_reboot_status port client = do
    usb_id ← outside (usb_instance world (text_or_empty port))
    now ← outside (monotonic_ms world)
    modify (recovering pre_reboot_status now usb_id)
    swallow (outside (close_client world client))

  -- RelayDaemon._selected_port
  unfoldable pub selected_port : DaemonConfig → Act Daemon String
  unfolding select_serial
  selected_port config =
      if str_eq config.selector_type "port"
      then pure config.selector_value
      else outside (select_serial world config.selector_value)
