-- ===== src/Relayctl.antt =====
-- The command-line client of the daemon (host/rp2350_relay_6ch/relayctl.py): which socket it talks
-- to, its commands, and its exit codes. The commands of systemd are not modelled.
pub mod Agrees
use rp2350_relay_6ch.Prelude.{
  ℕ, String, Bool, true, false, Option, none, some, List, [], ◌∷◌, str_eq, if◌then◌else◌,
}
use rp2350_relay_6ch.Prelude.Int.{ℤ, pos, leb_ℤ}
use rp2350_relay_6ch.Errors.{Exc, Result, ok, err, and_then, validation}
use rp2350_relay_6ch.Value.{Python, Fields, end, field, int, str, filled}
use rp2350_relay_6ch.Client.{Call}
use rp2350_relay_6ch.Requests.{Json}
use rp2350_relay_6ch.Smoke.{SmokeRelayClient, smoke_payload, run_smoke_sequence}
use rp2350_relay_6ch.Config.{System}
use rp2350_relay_6ch.Config.Resolve.{resolve_instance_config}
use rp2350_relay_6ch.DaemonClient.{
  Socket, RelayDaemonClient, new_daemon_client, perform, daemon_status,
}
use rp2350_relay_6ch.Cli.{exit_code}
use rp2350_relay_6ch.Cli.Format.Results.{format_human}
use rp2350_relay_6ch.Session.Text.{format_error}

-- what argparse made of the options; `timeout` is in milliseconds
pub record CtlArgs : Type 0 where
  pub instance_name : Option String
  pub config : Option String
  pub socket : Option String
  pub timeout : ℤ
  pub json_output : Bool

pub data CtlCommand : Type 0 where
  client_call : Call → CtlCommand
  status_of_daemon : CtlCommand
  smoke : ℤ → CtlCommand

-- the exit code with the text that was printed, or an exception that is not caught
pub data Outcome : Type 0 where
  exited : ℕ → String → Outcome
  crashed : Exc → Outcome

-- `{"socket": socket_override} if socket_override is not None else None`
abbrev pub socket_override : Option String → Fields
socket_override none = end
socket_override (some socket) = field "socket" (str socket) end

module _ (sys : System) (py : Python) where
  -- config.resolve_socket_for_instance
  unfoldable pub resolve_socket_for_instance :
      Option String → Option String → Option String → Result String
  unfolding resolve_instance_config
  resolve_socket_for_instance instance_name config_path override =
      and_then
        (resolve_instance_config sys py instance_name config_path (socket_override override)
          sys.environ)
        (λ r. ok r.socket_path)

  unfoldable pub socket_by : CtlArgs → Option String → Option String → Result String
  unfolding resolve_socket_for_instance
  socket_by args (some name) socket =
      resolve_socket_for_instance (some name) args.config args.socket
  socket_by args none (some socket) = ok socket
  socket_by args none none = err (validation "--socket or --instance is required")

  -- _client, up to the connection
  unfoldable pub socket_of : CtlArgs → Result String
  unfolding socket_by
  socket_of args = socket_by args (filled args.instance_name) (filled args.socket)

-- the client after the calls of a sequence, newest first
unfoldable pub after_calls :
    Python → Json → Socket → RelayDaemonClient → List Call → RelayDaemonClient
unfolding perform
after_calls py json socket c [] = c
after_calls py json socket c (m ∷ calls) =
    (perform py json socket m (after_calls py json socket c calls)).1

-- `connect` is the attempt to connect a Unix socket to a path; OSError is a transport error.
module _ (sys : System) (py : Python) (json : Json) (connect : String → Result Socket)
    (dumps : Fields → String) where
  -- RelayDaemonClient.connect
  unfoldable pub connect_daemon : String → ℤ → Result (Socket × RelayDaemonClient)
  unfolding new_daemon_client
  connect_daemon path timeout =
      if str_eq path ""
      then err (validation "socket_path is required")
      else if leb_ℤ timeout (pos 0)
      then err (validation "timeout_s must be positive")
      else and_then (connect path)
          (λ socket. and_then (new_daemon_client timeout) (λ c. ok (socket, c)))

  -- the functions cmd_…, with a client
  unfoldable pub ctl_answer : CtlCommand → Socket × RelayDaemonClient → Result Fields
  unfolding perform daemon_status run_smoke_sequence smoke_payload after_calls
  ctl_answer (client_call m) (socket, c) = (perform py json socket m c).0
  ctl_answer status_of_daemon (socket, c) = (daemon_status py json socket c).0
  ctl_answer (smoke pulse_ms) (socket, c) =
      smoke_payload
        (run_smoke_sequence
          (record {
            answer = λ calls m. (perform py json socket m (after_calls py json socket c calls)).0;
          })
          (int pulse_ms) []).0

  -- COMMANDS[args.command](args)
  unfoldable pub ctl_payload : CtlArgs → CtlCommand → Result Fields
  unfolding socket_of connect_daemon ctl_answer
  ctl_payload args command =
      and_then (socket_of sys py args)
        (λ path. and_then (connect_daemon path args.timeout) (λ client. ctl_answer command client))

  abbrev pub emitted : Result String → Outcome
  emitted (ok text) = exited 0 text
  emitted (err e) = crashed e

  abbrev pub failed_with : Exc → Option ℕ → Outcome
  failed_with e none = crashed e
  failed_with e (some code) = exited code (format_error py e)

  -- `_emit`, or the `except` clauses
  unfoldable pub outcome : CtlArgs → String → Result Fields → Outcome
  unfolding format_human exit_code format_error
  outcome args name (ok payload) =
      emitted (if args.json_output then ok (dumps payload) else format_human py dumps name payload)
  outcome args name (err e) = failed_with e (exit_code e)

  -- run, of a command with its name
  unfoldable pub run_ctl : CtlArgs → String → CtlCommand → Outcome
  unfolding ctl_payload outcome
  run_ctl args name command = outcome args name (ctl_payload args command)
