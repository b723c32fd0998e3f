-- ===== src/DaemonClient.antt =====
-- class RelayDaemonClient (host/rp2350_relay_6ch/daemon_client.py). The socket is a parameter: its
-- answer to a frame is a function of the frames that were sent before, newest first.
pub mod Answers
pub mod Asked
pub mod Disconnected
use rp2350_relay_6ch.Prelude.{
  ℕ, ◌+◌, ◌<>◌, String, Bytes, Bool, true, false, not, Option, none, some, List, [], ◌∷◌, ◌++◌,
  str_eq, if◌then◌else◌,
}
use rp2350_relay_6ch.Prelude.Int.{ℤ, pos, negsuc, leb_ℤ}
use rp2350_relay_6ch.Errors.{
  Exc, Result, ok, err, Done, and_then, message, transport, timeout, protocol, validation, device,
  foreign,
}
use rp2350_relay_6ch.Value.{
  Python, Value, Fields, end, field, null, bool, int, str, obj, lookup, get, get_or, to_int,
  equals_int, Decoded, decoded, malformed,
}
use rp2350_relay_6ch.Command.{Command, name}
use rp2350_relay_6ch.Requests.{Json, validate_channel, validate_on, validate_duration}
use rp2350_relay_6ch.Protocol.{off_mask}
use rp2350_relay_6ch.Value.{as_plain_int, check_int}
use rp2350_relay_6ch.Client
use rp2350_relay_6ch.Client.{Call}

-- What `sendall` and `readline` did: socket.timeout, another OSError, or a line (empty where the
-- daemon has closed the connection).
pub data Talk : Type 0 where
  timed_out : Talk
  os_error : String → Talk
  line : Bytes → Talk

pub record Socket : Type 0 where
  pub talk : List Bytes → Bytes → Talk

pub record RelayDaemonClient : Type 0 where
  pub timeout_s : ℤ
  pub next_id : ℕ
  pub sent : List Bytes

-- RelayDaemonClient.__init__ on a connected socket
unfoldable pub new_daemon_client : ℤ → Result RelayDaemonClient
new_daemon_client timeout_s =
    if leb_ℤ timeout_s (pos 0)
    then err (validation "timeout_s must be positive")
    else ok (record { timeout_s = timeout_s; next_id = 1; sent = [] })

module _ (py : Python) where
  -- RelayDeviceError(group, rc, message), whose text is never empty
  abbrev pub device_error : ℤ → ℤ → String → Exc
  device_error group rc m =
      if str_eq m ""
      then device group rc ("device error group=" <> py.show_int group <> " rc=" <> py.show_int rc)
      else device group rc m

  -- the classes that the kinds name; `group` and `rc` are read for a device error only
  raise_kind : String → String → Fields → Result Fields
  raise_kind kind m e =
      if str_eq kind "validation"
      then err (validation m)
      else if str_eq kind "transport"
      then err (transport m)
      else if str_eq kind "timeout"
      then err (timeout m)
      else if str_eq kind "protocol"
      then err (protocol m)
      else if str_eq kind "device"
      then and_then (to_int py (get_or (int (negsuc 0)) (lookup "group" e))) (λ group.
        and_then (to_int py (get_or (int (negsuc 0)) (lookup "rc" e)))
          (λ rc. err (device_error group rc m)))
      else if str_eq kind "daemon"
      then err (transport m)
      else err (protocol ("unknown daemon error kind " <> kind))

  raise_parts : Value → Value → Fields → Result Fields
  unfolding raise_kind
  raise_parts (str kind) (str m) e = raise_kind kind m e
  raise_parts _ _ e = err (protocol "daemon error object missing kind or message")

  -- RelayDaemonClient._raise_error
  unfoldable pub raise_error : Fields → Result Fields
  unfolding raise_parts to_int lookup get
  raise_error e = raise_parts (get "kind" e) (get "message" e) e

  result_of : Value → Result Fields
  result_of (obj r) = ok r
  result_of _ = err (protocol "daemon success response result must be an object")

  error_of : Value → Result Fields
  unfolding raise_error
  error_of (obj e) = raise_error e
  error_of _ = err (protocol "daemon error response must include an error object")

  by_status : Value → Fields → Result Fields
  unfolding result_of error_of
  by_status (bool true) d = result_of (get "result" d)
  by_status (bool false) d = error_of (get "error" d)
  by_status _ d = err (protocol "daemon response missing ok status")

  -- the end of RelayDaemonClient._request: what a decoded response means
  unfoldable pub read_response : ℕ → Value → Result Fields
  unfolding by_status get lookup
  read_response request_id (obj d) =
      if not (equals_int (get "id" d) (pos request_id))
      then err (protocol "daemon response id does not match the request")
      else by_status (get "ok" d) d
  read_response request_id _ = err (protocol "daemon response must be a JSON object")

  read_decoded : ℕ → Decoded → Result Fields
  unfolding read_response
  read_decoded request_id (malformed m) = err (protocol "daemon returned malformed JSON")
  read_decoded request_id (decoded v) = read_response request_id v

  read_talk : Json → ℕ → Talk → Result Fields
  unfolding read_decoded
  read_talk json request_id timed_out = err (timeout "timed out waiting for daemon response")
  read_talk json request_id (os_error m) = err (transport m)
  read_talk json request_id (line []) = err (transport "daemon closed the connection")
  read_talk json request_id (line (c ∷ cs)) = read_decoded request_id (json.loads (c ∷ cs))

-- the frame of a request: `args` is left out where the method passes none
args_field : Option Fields → Fields
args_field none = end
args_field (some args) = field "args" (obj args) end

unfoldable pub frame : ℕ → Command → Option Fields → Value
unfolding args_field name
frame request_id command args =
    obj (field "id" (int (pos request_id)) (field "command" (str (name command)) (args_field args)))

-- the bytes on the socket, which end the line
abbrev pub encoded : Json → Value → Bytes
encoded json v = json.dumps v ++ b'\n' ∷ []

unfoldable pub validate_state_mask : Value → Done
unfolding check_int
validate_state_mask v = check_int off_mask "state must be a six-bit mask 0..0x3f" (as_plain_int v)

guarded :
    Done
    → (RelayDaemonClient → Result Fields × RelayDaemonClient)
    → RelayDaemonClient
    → Result Fields × RelayDaemonClient
guarded (ok _) k c = k c
guarded (err e) k c = (err e, c)

module _ (py : Python) (json : Json) (socket : Socket) where
  -- RelayDaemonClient._request
  unfoldable pub request :
      Command → Option Fields → RelayDaemonClient → Result Fields × RelayDaemonClient
  unfolding frame read_talk
  request command args c =
      let packet = encoded json (frame c.next_id command args) in
      (
        read_talk py json c.next_id (socket.talk c.sent packet),
        record c { next_id = c.next_id + 1; sent = packet ∷ c.sent },
      )

  -- the public methods: those of RelayClient, but for `heartbeat`, which is the daemon's own
  unfoldable pub perform : Call → RelayDaemonClient → Result Fields × RelayDaemonClient
  unfolding guarded validate_channel validate_on validate_state_mask validate_duration
  perform Call.identity c = request Command.identity none c
  perform Call.capabilities c = request Command.capabilities none c
  perform Call.build_info c = request Command.build_info none c
  perform Call.get_all_relays c = request Command.get_all none c
  perform Call.off_all_relays c = request Command.off_all none c
  perform Call.status c = request Command.status none c
  perform Call.health c = request Command.health none c
  perform Call.transport_status c = request Command.transport none c
  perform Call.safety c = request Command.safety none c
  perform Call.watchdog c = request Command.watchdog none c
  perform Call.reboot c = request Command.reboot none c
  perform Call.bootsel c = request Command.bootsel none c
  perform Call.heartbeat c = (err (foreign "AttributeError: heartbeat"), c)
  perform (Call.get_relay channel) c =
      guarded (validate_channel channel) (request Command.get (some (field "channel" channel end)))
        c
  perform (Call.set_relay channel on) c =
      guarded (and_then (validate_channel channel) (λ _. validate_on on))
        (request Command.set (some (field "channel" channel (field "on" on end)))) c
  perform (Call.set_all_relays state) c =
      guarded (validate_state_mask state) (request Command.set_all (some (field "state" state end)))
        c
  perform (Call.pulse_relay channel duration_ms) c =
      guarded (and_then (validate_channel channel) (λ _. validate_duration duration_ms))
        (request Command.pulse
          (some (field "channel" channel (field "duration_ms" duration_ms end))))
        c

  -- RelayDaemonClient.daemon_status
  unfoldable pub daemon_status : RelayDaemonClient → Result Fields × RelayDaemonClient
  daemon_status c = request Command.daemon_status none c
