-- ===== src/Tests/Serving.antt =====
-- Applications of the theorems on the daemon.
use rp2350_relay_6ch.Prelude.{◌-◌, ltb, ◌≡◌, refl, ◌∷◌, [], none, some, String, true, false, arith}
use rp2350_relay_6ch.Errors.{Exc, ok, err, is_relay_error}
use rp2350_relay_6ch.Value.{Fields, end, get, bool, int}
use rp2350_relay_6ch.Prelude.Int.{pos}
use rp2350_relay_6ch.Requests.{Request}
use rp2350_relay_6ch.Command.{Command}
use rp2350_relay_6ch.Client.{Call}
use rp2350_relay_6ch.Daemon.World.{open_clients, called, closed, timed, opened, probe_ready}
use rp2350_relay_6ch.Daemon.State.{
  Daemon, daemon_status, new_daemon, record_reboot_reconnect_failure, selected_port, adopt_probe,
  enter_reboot_recovery,
}
use rp2350_relay_6ch.Daemon.Connect.{
  initial_connect, reconnect_after_reboot_once, reconnect_candidate_port, reboot_recovery_min_ms,
  reconnect_probe, is_reboot_reconnect_fresh,
}
use rp2350_relay_6ch.Daemon.Serve.{
  handle_request, worker_step, heartbeat_once, shutdown, device_call,
}
use rp2350_relay_6ch.Daemon.Invariant.{IsConsistent, IsDown}
use rp2350_relay_6ch.Daemon.Reach
use rp2350_relay_6ch.Daemon.Reach.{Reach, Reach-IsConsistent, shutdown-closes_all}
use rp2350_relay_6ch.Daemon.Requested.{
  Lost, AfterCall, handle_request_connected, heartbeat_outcomes, shutdown_turns_off,
}
use rp2350_relay_6ch.DaemonClient.{read_response}
use rp2350_relay_6ch.DaemonClient.Disconnected.{answer_without_device, answered_without_device}
use rp2350_relay_6ch.Daemon.Recovery.{Recovered, reconnected_after_reboot}
use rp2350_relay_6ch.Tests.{world, python, config, up, rebooting, asked_for, uptime}

-- the run in which client 3 was opened
abbrev held : Daemon
held = record up { trace = opened "COM1" 3 ∷ [] }

held-IsConsistent : IsConsistent held
unfolding open_clients
held-IsConsistent = ground arith

rebooting-IsConsistent : IsConsistent rebooting
unfolding open_clients
rebooting-IsConsistent = ground arith

begun-IsDown : IsDown [] new_daemon
unfolding open_clients
begun-IsDown = ground arith

abbrev begun : Daemon
begun = (initial_connect world python config new_daemon).1

-- connected, then asked for a reboot
abbrev asked : Daemon
asked = (worker_step world config (asked_for Command.reboot end) begun).1

asked-Reach : Reach world python config asked
asked-Reach = Reach.next Reach.begin (Reach.request (asked_for Command.reboot end) begun)

asked-shut : (shutdown world asked).0 ≡ ok tt
unfolding shutdown worker_step handle_request initial_connect selected_port probe_ready adopt_probe
    enter_reboot_recovery
asked-shut = refl

Reach-IsConsistent_example : IsConsistent asked
Reach-IsConsistent_example = Reach-IsConsistent world python config asked-Reach

shutdown-closes_all_example :
    let d' = (shutdown world asked).1 in
    (open_clients d'.trace ≡ []) × (d'.client ≡ none) × (d'.connected ≡ false) × (d'.stopped ≡ true)
shutdown-closes_all_example = shutdown-closes_all world python config asked-Reach asked-shut

pulse-called : device_call Command.off_all end ≡ ok Call.off_all_relays
unfolding device_call
pulse-called = refl

handle_request_connected_example :
    let (r, d') = handle_request world config (asked_for Command.off_all end) up in
    (r ≡ world.call [] 3 Call.off_all_relays)
    × AfterCall 3 Call.off_all_relays up (world.call [] 3 Call.off_all_relays) d'
handle_request_connected_example =
    handle_request_connected world config (asked_for Command.off_all end) up 3 Call.off_all_relays
      refl pulse-called refl refl

-- a request as RelayDaemonClient numbers it
abbrev numbered : Request
numbered = record (asked_for Command.off_all end) { request_id = int (pos 1) }

answered_without_device_example :
    let (response, d') = worker_step world config numbered new_daemon in
    (d' ≡ new_daemon)
    × (read_response python 1 response ≡ answer_without_device config new_daemon Command.off_all)
    × (get "connected" (daemon_status config new_daemon) ≡ bool false)
answered_without_device_example =
    answered_without_device world python config numbered new_daemon 1 refl refl

heartbeat_outcomes_example :
    let d' = (heartbeat_once world up).1 in
    ((a : Fields)
      → world.call [] 3 Call.heartbeat ≡ ok a
      → d' ≡ record up { trace = called 3 Call.heartbeat ∷ [] })
    × ((e : Exc)
        → world.call [] 3 Call.heartbeat ≡ err e
        → is_relay_error e ≡ true
        → Lost 3 e up d' × (d'.trace ≡ closed 3 ∷ called 3 Call.heartbeat ∷ []))
heartbeat_outcomes_example = heartbeat_outcomes world up 3 refl refl

shutdown_turns_off_example :
    let (r, d') = shutdown world up in
    (r ≡ ok tt)
    × (d'.client ≡ none)
    × (d'.connected ≡ false)
    × (d'.trace ≡ closed 3 ∷ called 3 Call.off_all_relays ∷ [])
shutdown_turns_off_example = shutdown_turns_off world up 3 refl (λ e h. cc)

rebooting-up : (reconnect_after_reboot_once world python config rebooting).1.connected ≡ true
unfolding reconnect_after_reboot_once reconnect_candidate_port selected_port reconnect_probe
    probe_ready get is_reboot_reconnect_fresh adopt_probe
rebooting-up = refl

reconnected_after_reboot_example :
    let (candidate, d') =
      reconnect_candidate_port world python config record_reboot_reconnect_failure
        (record rebooting { trace = timed ∷ [] }) in
    (ltb (9000 - 1000) reboot_recovery_min_ms ≡ false)
    × (port : String) × (candidate ≡ ok (some port))
    × Recovered world python config port d'.trace (uptime 50000) rebooting
reconnected_after_reboot_example =
    reconnected_after_reboot world python config 1000 (uptime 50000) rebooting refl refl refl
      rebooting-up
