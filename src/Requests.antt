-- ===== src/Requests.antt =====
-- The daemon's line protocol (host/rp2350_relay_6ch/daemon.py): requests, their validation, and
-- the responses. JSON itself is a parameter.
pub mod Strict
pub mod Accepted
use rp2350_relay_6ch.Prelude.{
  ℕ, String, Bytes, true, false, not, ◌<>◌, Option, none, some, List, [], ◌∷◌, keep, member, join,
  if◌then◌else◌, ◌++◌,
}
use rp2350_relay_6ch.Errors.{
  Exc, Result, ok, err, Done, and_then, message, transport, timeout, protocol, validation, device,
  relay, foreign,
}
use rp2350_relay_6ch.Value.{
  check_int, Python, Value, Fields, end, field, null, bool, int, str, obj, lookup, get, get_or,
  keys, is_empty, as_plain_int, Decoded, decoded, malformed,
}
use rp2350_relay_6ch.Protocol.{off_board, off_mask, off_pulse}
use rp2350_relay_6ch.Command.{Command, name, of_name, set, set_all, pulse}

-- The json module, on one line of bytes.
pub record Json : Type 0 where
  pub dumps : Value → Bytes
  pub loads : Bytes → Decoded

unfoldable pub response_ok : Value → Fields → Value
response_ok request_id result =
    obj (field "id" request_id (field "ok" (bool true) (field "result" (obj result) end)))

abbrev error_fields : Exc → Fields
error_fields (device group rc m) = field "group" (int group) (field "rc" (int rc) end)
error_fields _ = end

unfoldable pub response_error : Value → String → String → Fields → Value
response_error request_id kind text extra = obj (
    field "id" request_id (
      field "ok" (bool false)
        (field "error" (obj (field "kind" (str kind) (field "message" (str text) extra))) end)))

-- the kind under which an exception is reported
unfoldable pub kind_of : Exc → String
kind_of (validation _) = "validation"
kind_of (timeout _) = "timeout"
kind_of (transport _) = "transport"
kind_of (protocol _) = "protocol"
kind_of (device _ _ _) = "device"
kind_of (relay _) = "daemon"
kind_of (foreign _) = "daemon"

unfoldable pub error_response_for_exception : Value → Exc → Value
unfolding response_error kind_of
error_response_for_exception request_id e =
    response_error request_id (kind_of e) (message e) (error_fields e)

-- _Request, without the responder, which is the connection that the line came from.
pub record Request : Type 0 where
  pub request_id : Value
  pub command : Command
  pub args : Fields
  pub accepted_order : ℕ

-- daemon._validate_channel: a bool is no channel here
unfoldable pub validate_channel : Value → Done
unfolding check_int
validate_channel v = check_int off_board "channel must be 0..5" (as_plain_int v)

unfoldable pub validate_state : Value → Done
unfolding check_int
validate_state v = check_int off_mask "state must be 0..0x3f" (as_plain_int v)

unfoldable pub validate_duration : Value → Done
unfolding check_int
validate_duration v = check_int off_pulse "duration_ms must be 10..60000" (as_plain_int v)

unfoldable pub validate_on : Value → Done
validate_on (bool b) = ok tt
validate_on _ = err (validation "on must be a bool")

module _ (py : Python) where
  -- the texts of the two lists of keys that are not empty
  complaint : String → List String → List String
  complaint label [] = []
  complaint label (k ∷ ks) = (label <> join ", " (py.sorted (k ∷ ks))) ∷ []

  -- `keys` is the set as a list; the dict has the keys of `args`
  refuse_keys : String → List String → List String → Done
  unfolding complaint
  refuse_keys command [] [] = ok tt
  refuse_keys command missing extra = err (
      validation (
        command
        <> " args invalid: "
        <> join "; " (complaint "missing " missing ++ complaint "unexpected " extra)))

  unfoldable pub require_keys : Fields → List String → Command → Done
  unfolding refuse_keys keys name
  require_keys args wanted command =
      refuse_keys (name command) (keep (λ k. not (member k (keys args))) wanted)
        (keep (λ k. not (member k wanted)) (keys args))

  no_args : Fields → Command → Done
  unfolding name
  no_args args command =
      if is_empty args then ok tt else err (validation (name command <> " does not accept args"))

  unfoldable pub validate_args : Command → Fields → Done
  unfolding no_args require_keys validate_channel validate_on validate_state validate_duration
  validate_args Command.get args =
      and_then (require_keys args ("channel" ∷ []) Command.get)
        (λ _. validate_channel (get "channel" args))
  validate_args set args =
      and_then (require_keys args ("channel" ∷ "on" ∷ []) set)
        (λ _. and_then (validate_channel (get "channel" args)) (λ _. validate_on (get "on" args)))
  validate_args set_all args =
      and_then (require_keys args ("state" ∷ []) set_all) (λ _. validate_state (get "state" args))
  validate_args pulse args =
      and_then (require_keys args ("channel" ∷ "duration_ms" ∷ []) pulse) (λ _.
        and_then (validate_channel (get "channel" args))
          (λ _. validate_duration (get "duration_ms" args)))
  validate_args command args = no_args args command

  -- the three parts of a request, in the order in which they are read
  unfoldable pub read_id : Value → Result Value
  read_id (str s) = ok (str s)
  read_id (int n) = ok (int n)
  read_id _ = err (validation "id is required and must be a string or integer")

  known_command : String → Option Command → Result Command
  known_command s none = err (validation ("unknown command " <> s))
  known_command s (some c) = ok c

  unfoldable pub read_command : Value → Result Command
  unfolding known_command of_name
  read_command (str s) = known_command s (of_name s)
  read_command _ = err (validation "command is required")

  unfoldable pub read_args : Value → Result Fields
  read_args null = ok end
  read_args (obj d) = ok d
  read_args _ = err (validation "args must be an object")

  unfoldable pub parse_payload : ℕ → Value → Result Request
  unfolding read_id read_command read_args validate_args lookup get
  parse_payload order (obj d) = and_then (read_id (get "id" d)) (λ request_id.
      and_then (read_command (get "command" d)) (λ command.
        and_then (read_args (get_or (obj end) (lookup "args" d))) (λ args.
          and_then (validate_args command args) (λ _. ok (record {
            request_id = request_id;
            command = command;
            args = args;
            accepted_order = order;
          })))))
  parse_payload order _ = err (validation "request must be a JSON object")

  parse_decoded : ℕ → Decoded → Result Request
  unfolding parse_payload
  parse_decoded order (malformed m) = err (protocol ("malformed JSON: " <> m))
  parse_decoded order (decoded v) = parse_payload order v

  unfoldable pub parse_request_line : Json → Bytes → ℕ → Result Request
  unfolding parse_decoded
  parse_request_line json line order = parse_decoded order (json.loads line)

id_of : Value → Value
id_of (str s) = str s
id_of (int n) = int n
id_of _ = null

id_of_decoded : Decoded → Value
unfolding id_of get
id_of_decoded (decoded (obj d)) = id_of (get "id" d)
id_of_decoded _ = null

unfoldable pub request_id_from_line : Json → Bytes → Value
unfolding id_of_decoded
request_id_from_line json line = id_of_decoded (json.loads line)
