-- ===== src/Relayctl/Agrees.antt =====
-- The client and the daemon of one instance meet at one socket.
use rp2350_relay_6ch.Prelude.{String, Option, none, some, ◌≡◌, refl, sym, ◌∙◌, subst, arith}
use rp2350_relay_6ch.Errors.{ok, and_then-eq-ok}
use rp2350_relay_6ch.Value.{Python, filled}
use rp2350_relay_6ch.Config.{System}
use rp2350_relay_6ch.Config.Resolve.{resolve_instance_config}
use rp2350_relay_6ch.Daemon.State.{DaemonConfig}
use rp2350_relay_6ch.Daemon.Args.{DaemonArgs, overrides, of_instance, config_by, config_from_args}
use rp2350_relay_6ch.Relayctl.{
  CtlArgs, socket_override, resolve_socket_for_instance, socket_by, socket_of,
}

-- a daemon that is started with the options that a client has too
abbrev pub daemon_for : CtlArgs → DaemonArgs
daemon_for args = record {
  instance_name = args.instance_name;
  config = args.config;
  port = none;
  serial = none;
  socket = args.socket;
  baud = none;
  timeout = none;
  retries = none;
  reconnect_interval = none;
  wait_device = none;
  log_level = none;
}

module _ (sys : System) (py : Python) where
  resolved-agrees :
      (args : CtlArgs) (name config socket : Option String)
      → resolve_instance_config sys py name config
          (overrides (daemon_for (record args { socket = socket })))
          sys.environ
        ≡ resolve_instance_config sys py name config (socket_override socket) sys.environ
  unfolding resolve_instance_config
  resolved-agrees args name config none = refl
  resolved-agrees args name config (some socket) = refl

  by_name-agrees :
      (args : CtlArgs) (name : String) (c : DaemonConfig)
      → config_by sys py (daemon_for args) (some name) ≡ ok c
      → socket_by sys py args (some name) (filled args.socket) ≡ ok c.socket_path
  unfolding config_by socket_by resolve_socket_for_instance
  by_name-agrees args name c h =
      let (r, found, same) =
        and_then-eq-ok
          (resolve_instance_config sys py (some name) args.config (overrides (daemon_for args))
            sys.environ)
          (λ r. ok (of_instance r)) h in
      let there = sym (resolved-agrees args (some name) args.config args.socket) ∙ found in
      rw there (ground (arith, same))

  -- A client that is given the options of a daemon that named its instance connects to the socket
  -- of that daemon, whatever the file, the environment and --socket say.
  pub socket_of-agrees :
      (args : CtlArgs) (name : String) (c : DaemonConfig)
      → filled args.instance_name ≡ some name
      → config_from_args sys py (daemon_for args) ≡ ok c
      → socket_of sys py args ≡ ok c.socket_path
  unfolding socket_of config_from_args
  socket_of-agrees args name c named h =
      subst (λ o. socket_by sys py args o (filled args.socket) ≡ ok c.socket_path) (sym named)
        (by_name-agrees args name c
          (subst (λ o. config_by sys py (daemon_for args) o ≡ ok c) named h))
