-- ===== src/Cli.antt =====
-- The command-line tool (host/rp2350_relay_6ch/cli.py): the parsing of its arguments, the commands
-- that are one method of RelayClient, and the exit codes.
pub mod Commands
pub mod Format
use rp2350_relay_6ch.Prelude.{
  str_eq, ℕ, zero, suc, String, Bool, true, false, ◌||◌, ◌<>◌, Option, none, some, ◌∷◌, [], member,
  if◌then◌else◌,
}
use rp2350_relay_6ch.Prelude.Int.{ℤ, pos, negsuc, ltb_ℤ}
use rp2350_relay_6ch.Errors.{
  Exc, Result, ok, err, Done, validation, protocol, relay, transport, timeout, device, foreign,
}
use rp2350_relay_6ch.Value.{Python, Fields, get, equals_int}
use rp2350_relay_6ch.Protocol.{protocol_version, command_model_version, relay_count, off_mask}
use rp2350_relay_6ch.Client.{Call}
use rp2350_relay_6ch.Action.{Act, pure, raise, lift, catch, ◌>>=◌, ◌>>◌}
use rp2350_relay_6ch.Daemon.World.{World, Trace, open_client, call, close_client}

-- what a parser of one argument makes of its text: ArgumentTypeError has a message
pub data Parsed (A : Type 0) : Type 0 where
  parsed : A → Parsed A
  bad_argument : String → Parsed A

state_of : Option ℤ → Parsed ℤ
state_of none = bad_argument "state must be an integer mask"
state_of (some n) = if off_mask n then bad_argument "state must be 0..0x3f" else parsed n

-- _parse_state
unfoldable pub parse_state : Python → String → Parsed ℤ
unfolding state_of
parse_state py text = state_of (py.int_of_literal text)

-- `channel < 1 or channel > RELAY_COUNT`, and then `channel - 1`
channel_of : Option ℤ → Parsed ℤ
channel_of none = bad_argument "channel must be an integer"
channel_of (some n) =
    if ltb_ℤ n (pos 1) || ltb_ℤ (pos relay_count) n
    then bad_argument "channel must be 1..6"
    else one_less n
  where
    one_less : ℤ → Parsed ℤ
    one_less (pos zero) = parsed (negsuc 0)
    one_less (pos (suc m)) = parsed (pos m)
    one_less (negsuc m) = parsed (negsuc (suc m))

-- _parse_channel
unfoldable pub parse_channel : Python → String → Parsed ℤ
unfolding channel_of
parse_channel py text = channel_of (py.int_of_literal text)

-- _parse_on_off, of the text in lower case
unfoldable pub parse_on_off : String → Parsed Bool
parse_on_off normalized =
    if member normalized ("on" ∷ "1" ∷ "true" ∷ "yes" ∷ [])
    then parsed true
    else if member normalized ("off" ∷ "0" ∷ "false" ∷ "no" ∷ [])
    then parsed false
    else bad_argument "state must be on or off"

-- the exit code of `run` for an exception; any other exception is not caught
unfoldable pub exit_code : Exc → Option ℕ
exit_code (validation m) = some 2
exit_code (timeout m) = some 4
exit_code (transport m) = some 3
exit_code (protocol m) = some 5
exit_code (device group rc m) = some 6
exit_code (relay m) = some 5
exit_code (foreign m) = none

-- _validate_protocol, of the identity
unfoldable pub validate_protocol : Python → Fields → Done
validate_protocol py identity =
    if equals_int (get "protocol_version" identity) (pos protocol_version)
    then (if equals_int (get "command_model_version" identity) (pos command_model_version)
        then ok tt
        else err (
            protocol (
              "unexpected relay command model version "
              <> py.show (get "command_model_version" identity))))
    else err (
        protocol
          ("unexpected relay protocol version " <> py.show (get "protocol_version" identity)))

-- `if not args.port`
unfoldable pub require_port : Option String → Result String
require_port none = err (validation "--port is required")
require_port (some port) = if str_eq port "" then err (validation "--port is required") else ok port

module _ (world : World) (py : Python) where
  -- _ready_client
  unfoldable pub ready_client : String → Act Trace ℕ
  unfolding open_client call close_client validate_protocol
  ready_client port = do
    client ← open_client world port
    catch (do found ← call world client Call.identity; lift (validate_protocol py found))
        (λ e. close_client world client >> raise e)
    pure client

  -- `with _ready_client(args) as client: return client.<method>(…)`
  unfoldable pub with_client : String → Call → Act Trace Fields
  unfolding ready_client call close_client
  with_client port method = do
    client ← ready_client port
    answer ← catch (call world client method) (λ e. close_client world client >> raise e)
    close_client world client
    pure answer

  -- `identity` and `capabilities` neither check the protocol nor close the client
  unfoldable pub one_shot : String → Call → Act Trace Fields
  unfolding open_client call
  one_shot port method = do client ← open_client world port; call world client method

  on_port : String → Call → Act Trace Fields
  unfolding one_shot with_client
  on_port port Call.identity = one_shot port Call.identity
  on_port port Call.capabilities = one_shot port Call.capabilities
  on_port port method = with_client port method

  -- the functions cmd_… of one method of the client
  unfoldable pub run_command : Option String → Call → Act Trace Fields
  unfolding require_port on_port
  run_command port method = do p ← lift (require_port port); on_port p method
