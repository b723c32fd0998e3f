-- ===== src/Daemon/Requested.antt =====
-- What a request, a heartbeat and a shutdown do to the connection, on every branch.
use rp2350_relay_6ch.Prelude.{
  ℕ, ◌≡◌, ◌∷◌, refl, ◌∙◌, inl, inr, Bool, true, false, Option, none, some, is_some, arith,
}
use rp2350_relay_6ch.Errors.{
  Result-cases, Exc, Result, ok, err, message, is_transport_error, is_relay_error, transport,
  timeout,
}
use rp2350_relay_6ch.Value.{Fields}
use rp2350_relay_6ch.Command.{Command}
use rp2350_relay_6ch.Requests.{Request}
use rp2350_relay_6ch.Client.{Call}
use rp2350_relay_6ch.Action.{handled}
use rp2350_relay_6ch.Daemon.World.{World, called, closed, looked_up, timed}
use rp2350_relay_6ch.Daemon.State.{
  Daemon, DaemonConfig, mark_disconnected, enter_reboot_recovery, text_or_empty,
}
use rp2350_relay_6ch.Daemon.Serve.{
  heartbeat_once, link_failed, reboot_client, device_client, device_call, serve_client, serve_held,
  serve, handle_request, shutdown,
}

-- The commands that are one call of the client.
abbrev pub is_plain : Command → Bool
is_plain Command.reboot = false
is_plain Command.bootsel = false
is_plain Command.daemon_status = false
is_plain _ = true

-- How a daemon that lost its client `c` to the exception `e` differs from `d`.
pub record Lost (c : ℕ) (e : Exc) (d d' : Daemon) : Type 0 where
  pub client : d'.client ≡ none
  pub connected : d'.connected ≡ false
  pub port : d'.current_port ≡ none
  pub last_error : d'.last_error ≡ some (message e)
  pub attempts : d'.reconnect_attempts ≡ d.reconnect_attempts

-- What the daemon is after the call `m` of its client `c` ended in this way: a transport error, a
-- timeout included, closes the client, and nothing else changes the connection.
abbrev pub AfterError : ℕ → Call → Daemon → Exc → Bool → Daemon → Type 0
AfterError c m d e true d' = Lost c e d d' × (d'.trace ≡ closed c ∷ called c m ∷ d.trace)
AfterError c m d e false d' = d' ≡ record d { trace = called c m ∷ d.trace }

abbrev pub AfterCall : ℕ → Call → Daemon → Result Fields → Daemon → Type 0
AfterCall c m d (ok _) d' = d' ≡ record d { trace = called c m ∷ d.trace }
AfterCall c m d (err e) d' = AfterError c m d e (is_transport_error e) d'

module _ (world : World) where
  handled-AfterCall :
      (c : ℕ) (m : Call) (d : Daemon) (r : Result Fields)
      → d.client ≡ some c
      → let (r', d') = handled r (link_failed world) (record d { trace = called c m ∷ d.trace }) in
        (r' ≡ r) × AfterCall c m d r d'
  unfolding link_failed mark_disconnected
  handled-AfterCall c m d (ok a) h = (refl, refl)
  handled-AfterCall c m d (err (transport x)) h = ground arith
  handled-AfterCall c m d (err (timeout x)) h = ground arith
  handled-AfterCall c m d (err e) h = (refl, refl)

  device_client-AfterCall :
      (c : ℕ) (m : Call) (x : Result Call) (d : Daemon)
      → x ≡ ok m
      → d.client ≡ some c
      → let (r, d') = device_client world c x d in
        (r ≡ world.call d.trace c m) × AfterCall c m d (world.call d.trace c m) d'
  unfolding device_client
  device_client-AfterCall c m x d e h = rw e (handled-AfterCall c m d (world.call d.trace c m) h)

  serve_client-AfterCall :
      (c : ℕ) (m : Call) (request : Request) (command : Command) (d : Daemon)
      → is_plain command ≡ true
      → device_call command request.args ≡ ok m
      → d.client ≡ some c
      → let (r, d') = serve_client world c request command d in
        (r ≡ world.call d.trace c m) × AfterCall c m d (world.call d.trace c m) d'
  unfolding serve_client
  serve_client-AfterCall c m request Command.reboot d plain e h = cc
  serve_client-AfterCall c m request Command.bootsel d plain e h = cc
  serve_client-AfterCall c m request command d plain e h =
      device_client-AfterCall c m (device_call command request.args) d e h

  serve-held :
      (config : DaemonConfig) (request : Request) (command : Command) (d : Daemon)
      → is_plain command ≡ true
      → serve world config request command d ≡ serve_held world d.client d.connected request d
  unfolding serve
  serve-held config request Command.daemon_status d plain = cc
  serve-held config request command d plain = refl

  serve_held-up :
      (c : ℕ) (o : Option ℕ) (b : Bool) (request : Request) (d : Daemon)
      → o ≡ some c
      → b ≡ true
      → serve_held world o b request d ≡ serve_client world c request request.command d
  unfolding serve_held
  serve_held-up c o b request d e f = rw (e, f)

  -- A command that is one client call: while the daemon is connected the client is called once
  -- with the arguments of the request, its answer or exception is the result, and the connection
  -- is given up (closed, with the message as the last error) on a transport error or timeout and
  -- on nothing else.
  pub handle_request_connected :
      (config : DaemonConfig) (request : Request) (d : Daemon) (c : ℕ) (m : Call)
      → is_plain request.command ≡ true
      → device_call request.command request.args ≡ ok m
      → d.client ≡ some c
      → d.connected ≡ true
      → let (r, d') = handle_request world config request d in
        (r ≡ world.call d.trace c m) × AfterCall c m d (world.call d.trace c m) d'
  unfolding handle_request serve_held
  handle_request_connected config request d c m plain e held up =
      rw
        (serve-held config request request.command d plain
          ∙ serve_held-up c d.client d.connected request d held up)
        (serve_client-AfterCall c m request request.command d plain e held)

  -- A reboot that the firmware accepts is answered with its response; the status of before, the
  -- time and the USB instance are kept for the recovery, and the client is closed.
  pub reboot_accepted :
      (config : DaemonConfig) (request : Request) (d : Daemon) (c : ℕ) (before result : Fields)
      → request.command ≡ Command.reboot
      → d.client ≡ some c
      → d.connected ≡ true
      → world.call d.trace c Call.status ≡ ok before
      → world.call (called c Call.status ∷ d.trace) c Call.reboot ≡ ok result
      → let (r, d') = handle_request world config request d in
        (r ≡ ok result)
        × (d'.client ≡ none)
        × (d'.connected ≡ false)
        × (d'.reboot_recovery ≡ true)
        × (d'.reboot_pre_status ≡ some before)
        × (is_some d'.reboot_started_at ≡ true)
        × (d'.trace
            ≡ closed c
              ∷ timed
              ∷ looked_up (text_or_empty d.current_port)
              ∷ called c Call.reboot
              ∷ called c Call.status
              ∷ d.trace)
  unfolding handle_request serve serve_held serve_client reboot_client enter_reboot_recovery
  reboot_accepted config request d c before result cmd held up status done = ground arith

  -- A heartbeat that raises any RelayError ends the connection: the client is closed, the message
  -- is the last error, and no relay command is sent. A heartbeat that is answered changes nothing.
  pub heartbeat_outcomes :
      (d : Daemon) (c : ℕ)
      → d.client ≡ some c
      → d.connected ≡ true
      → let d' = (heartbeat_once world d).1 in
        ((a : Fields)
          → world.call d.trace c Call.heartbeat ≡ ok a
          → d' ≡ record d { trace = called c Call.heartbeat ∷ d.trace })
        × ((e : Exc)
            → world.call d.trace c Call.heartbeat ≡ err e
            → is_relay_error e ≡ true
            → Lost c e d d' × (d'.trace ≡ closed c ∷ called c Call.heartbeat ∷ d.trace))
  unfolding heartbeat_once mark_disconnected
  heartbeat_outcomes d c held up = (λ a h. ground arith, λ e h k. ground arith)

  -- The shutdown of a connected daemon turns every relay off and then closes the client, also
  -- where the device refuses or does not answer.
  pub shutdown_turns_off :
      (d : Daemon) (c : ℕ)
      → d.client ≡ some c
      → ((e : Exc) → world.call d.trace c Call.off_all_relays ≡ err e → is_relay_error e ≡ true)
      → let (r, d') = shutdown world d in
        (r ≡ ok tt)
        × (d'.client ≡ none)
        × (d'.connected ≡ false)
        × (d'.trace ≡ closed c ∷ called c Call.off_all_relays ∷ d.trace)
  unfolding shutdown
  shutdown_turns_off d c held known =
      elim (Result-cases (world.call d.trace c Call.off_all_relays)) [
        | inl (a, h) ↦ ground arith
        | inr (e, h) ↦ ground (arith, known e h)
      ]
