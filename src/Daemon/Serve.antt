-- ===== src/Daemon/Serve.antt =====
-- Serving: requests, the heartbeat, and the shutdown.
use rp2350_relay_6ch.Prelude.{ℕ, String, Bool, true, false, ◌<>◌, Option, none, some, if◌then◌else◌}
use rp2350_relay_6ch.Errors.{
  Exc, Result, ok, err, message, transport, validation, is_transport_error, is_relay_error,
}
use rp2350_relay_6ch.Value.{Value, Fields, get}
use rp2350_relay_6ch.Command.{Command, name}
use rp2350_relay_6ch.Requests.{Request, response_ok, error_response_for_exception}
use rp2350_relay_6ch.Client.{Call}
use rp2350_relay_6ch.Action.{
  Act, pure, raise, gets, modify, catch, swallow, swallow_relay, ◌>>=◌, ◌>>◌,
}
use rp2350_relay_6ch.Daemon.World.{World, call, close_client}
use rp2350_relay_6ch.Daemon.State.{
  DaemonConfig, Daemon, outside, daemon_status, mark_disconnected, enter_reboot_recovery,
}

-- The client method of each command of daemon._dispatch_device_command, which answers any other
-- command with RelayValidationError. The subscripts `args["…"]` follow validation.
unfoldable pub device_call : Command → Fields → Result Call
unfolding get name
device_call Command.identity args = ok Call.identity
device_call Command.capabilities args = ok Call.capabilities
device_call Command.build_info args = ok Call.build_info
device_call Command.get args = ok (Call.get_relay (get "channel" args))
device_call Command.get_all args = ok Call.get_all_relays
device_call Command.set args = ok (Call.set_relay (get "channel" args) (get "on" args))
device_call Command.set_all args = ok (Call.set_all_relays (get "state" args))
device_call Command.pulse args = ok (Call.pulse_relay (get "channel" args) (get "duration_ms" args))
device_call Command.off_all args = ok Call.off_all_relays
device_call Command.status args = ok Call.status
device_call Command.health args = ok Call.health
device_call Command.transport args = ok Call.transport_status
device_call Command.safety args = ok Call.safety
device_call Command.watchdog args = ok Call.watchdog
device_call Command.reboot args = ok Call.reboot
device_call Command.bootsel args = ok Call.bootsel
device_call c args = err (validation ("unknown command " <> name c))

unfoldable pub respond : Value → Result Fields → Value
unfolding response_ok error_response_for_exception
respond request_id (ok result) = response_ok request_id result
respond request_id (err e) = error_response_for_exception request_id e

module _ (world : World) where
  -- `except RelayError` of `_heartbeat_once`
  unfoldable pub heartbeat_failed : Exc → Act Daemon Fields
  heartbeat_failed e =
      if is_relay_error e then mark_disconnected world (message e) false >> raise e else raise e

  unfoldable pub beat : Option ℕ → Bool → Act Daemon (Unit {0})
  unfolding heartbeat_failed call
  beat (some client) true =
      swallow_relay (catch (outside (call world client Call.heartbeat)) heartbeat_failed)
  beat _ _ = pure tt

  -- RelayDaemon._heartbeat_once
  unfoldable pub heartbeat_once : Act Daemon (Unit {0})
  unfolding beat
  heartbeat_once d = beat d.client d.connected d

  -- `except RelayTransportError as exc: self._mark_disconnected(str(exc)); raise`
  unfoldable pub link_failed : {A : Type 0} → Exc → Act Daemon A
  link_failed e =
      if is_transport_error e then mark_disconnected world (message e) false >> raise e else raise e

  -- RelayDaemon._handle_request, with a client: `status` comes before either reboot
  unfoldable pub reboot_client : ℕ → Option String → Act Daemon Fields
  unfolding call
  reboot_client client port = do
    (before, result) ←
        catch
          (do
            before ← outside (call world client Call.status)
            result ← outside (call world client Call.reboot)
            pure (before, result))
          link_failed
    enter_reboot_recovery world before port client
    pure result

  unfoldable pub bootsel_client : ℕ → Act Daemon Fields
  unfolding call
  bootsel_client client = do
    result ←
        catch (outside (call world client Call.status) >> outside (call world client Call.bootsel))
          link_failed
    mark_disconnected world "BOOTSEL accepted; relay app left USB serial transport" false
    pure result

  unfoldable pub device_client : ℕ → Result Call → Act Daemon Fields
  unfolding call
  device_client client (err e) = raise e
  device_client client (ok m) = catch (outside (call world client m)) link_failed

  unfoldable pub serve_client : ℕ → Request → Command → Act Daemon Fields
  unfolding reboot_client bootsel_client device_client device_call link_failed
  serve_client client request Command.reboot d = reboot_client client d.current_port d
  serve_client client request Command.bootsel d = bootsel_client client d
  serve_client client request command d = device_client client (device_call command request.args) d

  unfoldable pub serve_held : Option ℕ → Bool → Request → Act Daemon Fields
  unfolding serve_client
  serve_held (some client) true request = serve_client client request request.command
  serve_held _ _ request = raise (transport "relay controller is disconnected")

  unfoldable pub serve : DaemonConfig → Request → Command → Act Daemon Fields
  unfolding serve_held
  serve config request Command.daemon_status d = (ok (daemon_status config d), d)
  serve config request command d = serve_held d.client d.connected request d

  -- RelayDaemon._handle_request
  unfoldable pub handle_request : DaemonConfig → Request → Act Daemon Fields
  unfolding serve
  handle_request config request = serve config request request.command

  -- one turn of RelayDaemon._worker_loop: every request gets a response
  unfoldable pub worker_step : DaemonConfig → Request → Daemon → Value × Daemon
  unfolding handle_request respond
  worker_step config request d =
      let (r, d') = handle_request config request d in (respond request.request_id r, d')

  unfoldable pub stop_client : Option ℕ → Act Daemon (Unit {0})
  unfolding call close_client
  stop_client none = pure tt
  stop_client (some client) = do
    swallow_relay (outside (call world client Call.off_all_relays))
    swallow (outside (close_client world client))

  -- the device side of RelayDaemon.shutdown
  unfoldable pub shutdown : Act Daemon (Unit {0})
  unfolding stop_client
  shutdown = do
    modify (λ d. record d { stopped = true })
    held ← gets (λ d. d.client)
    stop_client held
    modify (λ d. record d { client = none; connected = false; current_port = none })
