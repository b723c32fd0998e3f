-- ===== src/DaemonClient/Disconnected.antt =====
-- What a client of the daemon gets while no relay controller is connected.
use rp2350_relay_6ch.Prelude.{ℕ, ◌≡◌, refl, Bool, true, false, Option, none, some}
use rp2350_relay_6ch.Prelude.Int.{pos}
use rp2350_relay_6ch.Errors.{Result, ok, err, transport}
use rp2350_relay_6ch.Value.{Python, Fields, bool, int, get}
use rp2350_relay_6ch.Command.{Command}
use rp2350_relay_6ch.Requests.{Request}
use rp2350_relay_6ch.Daemon.World.{World}
use rp2350_relay_6ch.Daemon.State.{Daemon, DaemonConfig, daemon_status}
use rp2350_relay_6ch.Daemon.Serve.{serve_held, serve, handle_request, respond, worker_step}
use rp2350_relay_6ch.DaemonClient.{read_response}
use rp2350_relay_6ch.DaemonClient.Answers.{
  seen_by_client, read_response-response_ok, read_response-error_response,
}

-- the status of the daemon itself, or an error of the transport
abbrev pub answer_without_device : DaemonConfig → Daemon → Command → Result Fields
answer_without_device config d Command.daemon_status = ok (daemon_status config d)
answer_without_device config d _ = err (transport "relay controller is disconnected")

module _ (world : World) (py : Python) (config : DaemonConfig) where
  serve_held-down :
      (client : Option ℕ) (connected : Bool) (request : Request) (d : Daemon)
      → connected ≡ false
      → serve_held world client connected request d
        ≡ (err (transport "relay controller is disconnected"), d)
  unfolding serve_held
  serve_held-down none connected request d down = refl
  serve_held-down (some c) true request d down = absurd (cc)
  serve_held-down (some c) false request d down = refl

  serve-down :
      (request : Request) (command : Command) (d : Daemon)
      → d.connected ≡ false
      → serve world config request command d ≡ (answer_without_device config d command, d)
  unfolding serve
  serve-down request Command.daemon_status d down = refl
  serve-down request command d down = serve_held-down d.client d.connected request d down

  read_response-answer :
      (n : ℕ) (command : Command) (d : Daemon)
      → read_response py n (respond (int (pos n)) (answer_without_device config d command))
        ≡ answer_without_device config d command
  unfolding respond seen_by_client
  read_response-answer n Command.daemon_status d =
      read_response-response_ok py n (daemon_status config d)
  read_response-answer n command d =
      read_response-error_response py n (transport "relay controller is disconnected")

  -- While the daemon is not connected, a request leaves it as it was, so that nothing is sent or
  -- kept for later, whatever the command and its arguments. From the response its client reads
  -- the status of the daemon, which says that it is not connected, for daemon-status, and an error
  -- of the transport for every other command.
  pub answered_without_device :
      (request : Request) (d : Daemon) (n : ℕ)
      → d.connected ≡ false
      → request.request_id ≡ int (pos n)
      → let (response, d') = worker_step world config request d in
        (d' ≡ d)
        × (read_response py n response ≡ answer_without_device config d request.command)
        × (get "connected" (daemon_status config d) ≡ bool false)
  unfolding worker_step handle_request daemon_status get
  answered_without_device request d n down same = (
    rw (serve-down request request.command d down) refl,
    rw (serve-down request request.command d down, same) (read_response-answer n request.command d),
    rw down refl,
  )
