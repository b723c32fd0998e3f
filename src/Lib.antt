-- ===== src/Lib.antt =====
-- The host tooling of the RP2350 six-channel relay controller (host/rp2350_relay_6ch).
--
-- The controller speaks SMP over USB serial. RelayClient sends a request and reads its response.
-- The daemon rp2350-relayd holds the one RelayClient of a machine and shares it: its clients send
-- requests as JSON lines over a Unix socket, a worker thread runs them one at a time, a heartbeat
-- thread watches the device, and a reconnect thread finds it again after a loss or a reboot.
-- RelayDaemonClient is the client of the daemon and has the methods of RelayClient.
--
-- Errors models exceptions.py: an exception is a value of Exc, what is not a RelayError is
-- `foreign`, and a function that raises returns a Result. Value models the JSON and CBOR values
-- and the tests of Python on them (a bool is an int, an int equals a float). Protocol models
-- constants.py, Smp models smp.py, and Client models client.py: `request` is _request, with its
-- loop `attempts` of retries + 1 rounds, and `perform` gives each public method its request.
-- Command, Requests and Daemon model daemon.py: Requests is parse_request_line, _validate_args
-- and the responses; Daemon/World is what the daemon does outside (clients, discovery, clock),
-- kept as a trace; Daemon/State is the state of RelayDaemon with _adopt_probe, _mark_disconnected
-- and _enter_reboot_recovery; Daemon/Connect is _initial_connect, _reconnect_once and
-- _reconnect_after_reboot_once; Daemon/Serve is _handle_request, _heartbeat_once and shutdown.
-- Daemon/Lines is _read_client and _parser_loop, and Daemon/Args config_from_args. Discovery
-- models discovery.py and Smoke smoke.py. Config and its child Resolve model config.py, and Cli
-- the parsers, the commands and the exit codes of cli.py; its child Format is the text that
-- cli.py prints for a result. Session models session.py, the prompt of rp2350-relay:
-- Session/World is the state of RelaySession, what the user types and what the session does
-- outside, kept as a trace; Session/Connect is how it opens, adopts and drops a connection,
-- Session/Select _connect_from_options and _select_interactive_device, Session/Commands
-- _handle_relay_command, Session/Closing _close_allowed, _handle_exit and _handle_disconnect,
-- Session/Reboot _handle_reboot and _handle_bootsel, Session/Run handle_line and run,
-- Session/Heartbeat the loop of HeartbeatPoller, and Session/Completion RelaySessionCompleter.
-- Relayctl models relayctl.py, with config.resolve_socket_for_instance and the connection of
-- RelayDaemonClient. DaemonClient models daemon_client.py. Action is the state and exception
-- monad of these methods.
--
-- RpcSmoke models the stand-alone tool tools/usb_rpc_smoke.py: RpcSmoke/Crc is crc16_itu_t,
-- RpcSmoke/Cbor encode_map, its child Reader CborReader and decode_map, RpcSmoke/Frames
-- serial_frame and decoded_frames, RpcSmoke/Rpc encode_smp, call and run_one, and RpcSmoke/Run
-- run_smoke and main. The reader is the bytes that are left; its loops and nested values have
-- fuel, one step for each of these bytes and one more.
--
-- Transport models transport.py: the trace of what SerialSmpTransport does with its ports, and
-- SimulatedPacketTransport. Systemd and its child Doctor model systemd.py and the commands of
-- relayctl that call it, with the text files as the state. HardwareSmoke models
-- tools/host_library_hardware_smoke.py.
--
-- Integers are Python's, so they do not wrap; the sequence number is taken modulo 256 as in the
-- source. Loops are structural recursion on the rounds, the channels or the lines that are left.
-- Two more loops have fuel. One is `read_lines`, the loop that cuts a buffer into lines: it is the
-- length of the buffer, and each turn removes at least the newline. The other is the loop of a
-- session, a turn each: it ends by one turn more than the inputs of the user. Seconds are
-- milliseconds, but in a configuration, where they stay as they are given. The daemon holds
-- _command_lock for a request, a heartbeat and the end of a shutdown, and each of these is one
-- step. A turn of the reconnect loop is one step as well, although the source takes no lock
-- there: it does nothing while the daemon is connected, and only a connected daemon uses its
-- client for requests and heartbeats. A shutdown joins that thread for a limited time only; a
-- turn that ends after the shutdown is not modelled.
--
-- The serial port, the sockets, the packages smp, cbor2 and json, base64 and UTF-8, and the
-- answers of the device are parameters, so a theorem holds for every behaviour that they have.
-- Not modelled: logging,
-- argparse, printing, the thread of a session's heartbeat beside its commands, the packaging and
-- preview scripts, and the firmware.
pub mod Prelude
pub mod Errors
pub mod Value
pub mod Protocol
pub mod Smp
pub mod Client
pub mod Command
pub mod Requests
pub mod DaemonClient
pub mod Action
pub mod Daemon
pub mod Smoke
pub mod Discovery
pub mod Config
pub mod Cli
pub mod Session
pub mod Relayctl
pub mod RpcSmoke
pub mod Transport
pub mod HardwareSmoke
pub mod Systemd
pub mod Tests
