-- ===== src/Daemon/Served.antt =====
-- Requests, heartbeats and the shutdown keep the invariant.
use rp2350_relay_6ch.Prelude.{ℕ, ◌≡◌, refl, String, Bool, true, Option, some, arith}
use rp2350_relay_6ch.Errors.{Result, ok, err}
use rp2350_relay_6ch.Command.{Command}
use rp2350_relay_6ch.Requests.{Request}
use rp2350_relay_6ch.Client.{Call}
use rp2350_relay_6ch.Daemon.World.{World, open_clients}
use rp2350_relay_6ch.Daemon.State.{Daemon, DaemonConfig, mark_disconnected, enter_reboot_recovery}
use rp2350_relay_6ch.Daemon.Serve.{
  heartbeat_once, link_failed, reboot_client, bootsel_client, device_client, device_call,
  serve_client, serve_held, serve, handle_request, shutdown,
}
use rp2350_relay_6ch.Daemon.Invariant.{IsConsistent}

module _ (world : World) where
  device_client-IsConsistent :
      (c : ℕ) (m : Result Call) (d : Daemon)
      → IsConsistent d
      → IsConsistent (device_client world c m d).1
  unfolding device_client link_failed mark_disconnected open_clients
  device_client-IsConsistent c (err e) d v = v
  device_client-IsConsistent c (ok m) d v = ground arith

  bootsel_client-IsConsistent :
      (c : ℕ) (d : Daemon) → IsConsistent d → IsConsistent (bootsel_client world c d).1
  unfolding bootsel_client link_failed mark_disconnected open_clients
  bootsel_client-IsConsistent c d v = ground arith

  reboot_client-IsConsistent :
      (c : ℕ) (port : Option String) (d : Daemon)
      → IsConsistent d
      → d.client ≡ some c
      → IsConsistent (reboot_client world c port d).1
  unfolding reboot_client link_failed mark_disconnected enter_reboot_recovery open_clients
  reboot_client-IsConsistent c port d v h = ground arith

  -- A heartbeat keeps the invariant, whatever the device answers.
  pub heartbeat_once-IsConsistent :
      (d : Daemon) → IsConsistent d → IsConsistent (heartbeat_once world d).1
  unfolding heartbeat_once mark_disconnected open_clients
  heartbeat_once-IsConsistent d v = ground arith

  -- The shutdown keeps the invariant, also where it raises.
  pub shutdown-IsConsistent : (d : Daemon) → IsConsistent d → IsConsistent (shutdown world d).1
  unfolding shutdown open_clients
  shutdown-IsConsistent d v = ground arith

  serve_client-IsConsistent :
      (c : ℕ) (request : Request) (command : Command) (d : Daemon)
      → IsConsistent d
      → d.client ≡ some c
      → IsConsistent (serve_client world c request command d).1
  unfolding serve_client
  serve_client-IsConsistent c request Command.reboot d v h =
      reboot_client-IsConsistent c d.current_port d v h
  serve_client-IsConsistent c request Command.bootsel d v h = bootsel_client-IsConsistent c d v
  serve_client-IsConsistent c request command d v h =
      device_client-IsConsistent c (device_call command request.args) d v

  serve_held-IsConsistent :
      (held : Option ℕ) (connected : Bool) (request : Request) (d : Daemon)
      → IsConsistent d
      → d.client ≡ held
      → IsConsistent (serve_held world held connected request d).1
  unfolding serve_held
  serve_held-IsConsistent (some c) true request d v h =
      serve_client-IsConsistent c request request.command d v h
  serve_held-IsConsistent _ _ request d v h = v

  serve-IsConsistent :
      (config : DaemonConfig) (request : Request) (command : Command) (d : Daemon)
      → IsConsistent d
      → IsConsistent (serve world config request command d).1
  unfolding serve
  serve-IsConsistent config request Command.daemon_status d v = v
  serve-IsConsistent config request command d v =
      serve_held-IsConsistent d.client d.connected request d v refl

  -- Every request keeps the invariant, whatever the device answers.
  pub handle_request-IsConsistent :
      (config : DaemonConfig) (request : Request) (d : Daemon)
      → IsConsistent d
      → IsConsistent (handle_request world config request d).1
  unfolding handle_request
  handle_request-IsConsistent config request d v =
      serve-IsConsistent config request request.command d v
