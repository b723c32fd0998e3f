-- ===== src/Daemon/Connect.antt =====
-- Connecting: the first connection, and the reconnection after a loss or a firmware reboot.
use rp2350_relay_6ch.Prelude.{
  ℕ, ◌-◌, String, Bool, true, false, not, ◌&&◌, ◌||◌, Option, none, some, ltb, str_eq,
  if◌then◌else◌,
}
use rp2350_relay_6ch.Prelude.Int.{ℤ, ltb_ℤ}
use rp2350_relay_6ch.Errors.{
  Exc, ok, message, relay, transport, timeout, protocol, validation, device, foreign,
}
use rp2350_relay_6ch.Value.{Python, Fields, end, get, as_plain_int}
use rp2350_relay_6ch.Action.{Act, pure, raise, gets, modify, catch, ◌>>=◌, ◌>>◌}
use rp2350_relay_6ch.Daemon.World.{
  World, Probe, probe_ready, usb_instance, monotonic_ms, close_client,
}
use rp2350_relay_6ch.Daemon.State.{
  DaemonConfig, Daemon, outside, is_missing_selected_device, record_reboot_reconnect_failure,
  fail_reconnect, adopt_probe, mark_disconnected, selected_port,
}

-- REBOOT_RECOVERY_MIN_S, in milliseconds
abbrev pub reboot_recovery_min_ms : ℕ
reboot_recovery_min_ms = 1500

-- daemon._status_uptime_ms: an integer that is no bool
abbrev pub status_uptime_ms : Fields → Option ℤ
status_uptime_ms status = as_plain_int (get "uptime_ms" status)

abbrev pub is_later_boot : Option ℤ → Option ℤ → Bool
is_later_boot (some before) (some after) = ltb_ℤ after before
is_later_boot _ _ = true

-- daemon._is_reboot_reconnect_fresh
unfoldable pub is_reboot_reconnect_fresh : Fields → Fields → Bool
unfolding get
is_reboot_reconnect_fresh before after =
    is_later_boot (status_uptime_ms before) (status_uptime_ms after)

-- `old is not None and candidate == old`
abbrev pub same_instance : Option String → Option String → Bool
same_instance (some old) (some candidate) = str_eq candidate old
same_instance _ _ = false

module _ (world : World) (py : Python) (config : DaemonConfig) where
  -- RelayDaemon._connect_ready
  unfoldable pub connect_ready : Act Daemon (Unit {0})
  connect_ready = do
    port ← selected_port world config
    probe ← outside (probe_ready world py port)
    adopt_probe world probe

  -- how `_initial_connect` takes each class of exception
  unfoldable pub initial_failure : Exc → Act Daemon (Unit {0})
  initial_failure (validation m) =
      if config.wait_device && is_missing_selected_device m
      then mark_disconnected world m true
      else raise (validation m)
  initial_failure (protocol m) = raise (protocol m)
  initial_failure (transport m) =
      if config.wait_device then mark_disconnected world m true else raise (transport m)
  initial_failure (timeout m) =
      if config.wait_device then mark_disconnected world m true else raise (timeout m)
  initial_failure (device group rc m) =
      if config.wait_device then mark_disconnected world m true else raise (transport m)
  initial_failure (relay m) =
      if config.wait_device then mark_disconnected world m true else raise (transport m)
  initial_failure (foreign m) = raise (foreign m)

  -- RelayDaemon._initial_connect
  unfoldable pub initial_connect : Act Daemon (Unit {0})
  unfolding initial_failure connect_ready
  initial_connect = catch connect_ready initial_failure

  -- how `_reconnect_candidate_port` takes an exception: only RelayValidationError is caught
  unfoldable pub no_candidate : (String → Act Daemon (Unit {0})) → Exc → Act Daemon (Option String)
  no_candidate record_failure (validation m) =
      if is_missing_selected_device m
      then record_failure m >> pure none
      else fail_reconnect (validation m) >> pure none
  no_candidate record_failure e = raise e

  -- RelayDaemon._reconnect_candidate_port
  unfoldable pub reconnect_candidate_port :
      (String → Act Daemon (Unit {0})) → Act Daemon (Option String)
  unfolding no_candidate
  reconnect_candidate_port record_failure =
      catch (do port ← selected_port world config; pure (some port)) (no_candidate record_failure)

  -- how `_reconnect_probe` takes an exception
  unfoldable pub no_probe : (String → Act Daemon (Unit {0})) → Exc → Act Daemon (Option Probe)
  no_probe record_failure (validation m) =
      if is_missing_selected_device m
      then record_failure m >> pure none
      else fail_reconnect (validation m) >> pure none
  no_probe record_failure (protocol m) = fail_reconnect (protocol m) >> pure none
  no_probe record_failure (foreign m) = raise (foreign m)
  no_probe record_failure e = record_failure (message e) >> pure none

  -- RelayDaemon._reconnect_probe
  unfoldable pub reconnect_probe :
      String → (String → Act Daemon (Unit {0})) → Act Daemon (Option Probe)
  unfolding no_probe
  reconnect_probe port record_failure =
      catch (do probe ← outside (probe_ready world py port); pure (some probe))
        (no_probe record_failure)

  unfoldable pub adopt_found : Option Probe → Act Daemon (Unit {0})
  adopt_found none = pure tt
  adopt_found (some probe) = adopt_probe world probe

  unfoldable pub probe_candidate : Option String → Act Daemon (Unit {0})
  unfolding adopt_found
  probe_candidate none = pure tt
  probe_candidate (some port) = do
    found ← reconnect_probe port (λ m. mark_disconnected world m true)
    adopt_found found

  -- RelayDaemon._reconnect_once
  unfoldable pub reconnect_once : Act Daemon (Unit {0})
  unfolding probe_candidate
  reconnect_once = do
    candidate ← reconnect_candidate_port (λ m. mark_disconnected world m true)
    probe_candidate candidate

  -- the end of `_reconnect_after_reboot_once`: a probe is adopted if it shows a later boot
  unfoldable pub adopt_if_fresh : Fields → Option Probe → Act Daemon (Unit {0})
  unfolding close_client
  adopt_if_fresh before none = pure tt
  adopt_if_fresh before (some probe) =
      if is_reboot_reconnect_fresh before probe.status then adopt_probe world probe else do
        outside (close_client world probe.client)
        record_reboot_reconnect_failure "firmware reboot reconnect returned stale uptime"

  -- `self._reboot_pre_status or {}`
  abbrev pub or_empty : Option Fields → Fields
  or_empty none = end
  or_empty (some s) = s

  -- the port is known: the old USB instance has to be gone, or to have been gone
  unfoldable pub recover_at : String → Act Daemon (Unit {0})
  unfolding adopt_if_fresh usb_instance
  recover_at port = do
    usb_id ← outside (usb_instance world port)
    modify (λ d. record d {
      reboot_missing_seen = elim usb_id [ none ↦ true | some _ ↦ d.reboot_missing_seen ];
    })
    d ← gets (λ d. d)
    if same_instance d.reboot_usb_instance usb_id && not d.reboot_missing_seen then pure tt else do
      found ← reconnect_probe port record_reboot_reconnect_failure
      before ← gets (λ d. or_empty d.reboot_pre_status)
      adopt_if_fresh before found

  unfoldable pub recover_candidate : Option String → Act Daemon (Unit {0})
  unfolding recover_at
  recover_candidate none = pure tt
  recover_candidate (some port) = recover_at port

  unfoldable pub recover_since : Option ℕ → Act Daemon (Unit {0})
  unfolding recover_candidate monotonic_ms
  recover_since none = mark_disconnected world "firmware reboot recovery state is incomplete" false
  recover_since (some started_at) = do
    now ← outside (monotonic_ms world)
    if ltb (now - started_at) reboot_recovery_min_ms then pure tt else do
      candidate ← reconnect_candidate_port record_reboot_reconnect_failure
      recover_candidate candidate

  -- RelayDaemon._reconnect_after_reboot_once
  unfoldable pub reconnect_after_reboot_once : Act Daemon (Unit {0})
  unfolding recover_since
  reconnect_after_reboot_once d = recover_since d.reboot_started_at d

  -- one turn of RelayDaemon._reconnect_loop
  unfoldable pub reconnect_tick : Act Daemon (Unit {0})
  unfolding reconnect_once reconnect_after_reboot_once
  reconnect_tick d =
      if d.stopped || d.connected
      then (ok tt, d)
      else if d.reboot_recovery
      then reconnect_after_reboot_once d
      else reconnect_once d
