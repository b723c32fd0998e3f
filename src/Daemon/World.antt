-- ===== src/Daemon/World.antt =====
-- What the daemon meets outside: the serial clients that it opens, the USB discovery, the clock
-- and the USB instance of a port. Each answer is a function of all that happened before, newest
-- first, so a theorem for every `World` is one for every behaviour of the device.
use rp2350_relay_6ch.Prelude.{
  ℕ, without, String, Bool, false, not, ◌<>◌, Option, List, ◌∷◌, [], str_eq, if◌then◌else◌,
}
use rp2350_relay_6ch.Prelude.Int.{pos}
use rp2350_relay_6ch.Errors.{Result, ok, err, Done, protocol}
use rp2350_relay_6ch.Value.{Python, Value, Fields, null, str, get, equals_int}
use rp2350_relay_6ch.Protocol.{protocol_version, command_model_version, relay_count, hardware_name}
use rp2350_relay_6ch.Client.{Call}
use rp2350_relay_6ch.Action.{Act, catch, raise, lift, pure, ◌>>=◌, ◌>>◌}

-- A client object is known by a number.
pub data Event : Type 0 where
  opened : String → ℕ → Event
  open_failed : String → Event
  called : ℕ → Call → Event
  closed : ℕ → Event
  selected : String → Event
  looked_up : String → Event
  timed : Event

abbrev pub Trace : Type 0
Trace = List Event

pub record World : Type 0 where
  pub open_client : Trace → String → Result ℕ
  pub call : Trace → ℕ → Call → Result Fields
  pub close_client : Trace → ℕ → Done
  pub select_serial : Trace → String → Result String
  pub usb_instance : Trace → String → Option String
  pub monotonic_ms : Trace → ℕ

-- the clients that a run has opened and not closed, the newest first
unfoldable pub open_clients : Trace → List ℕ
open_clients [] = []
open_clients (opened _ c ∷ t) = c ∷ open_clients t
open_clients (closed c ∷ t) = without c (open_clients t)
open_clients (_ ∷ t) = open_clients t

abbrev open_event : String → Result ℕ → Event
open_event port (ok c) = opened port c
open_event port (err _) = open_failed port

-- _ConnectionProbe
pub record Probe : Type 0 where
  pub client : ℕ
  pub port : String
  pub status : Fields

-- `relay_count is not None and relay_count != RELAY_COUNT`
abbrev wrong_count : Value → Bool
wrong_count null = false
wrong_count v = not (equals_int v (pos relay_count))

-- `isinstance(hardware, str) and hardware != HARDWARE_NAME`
abbrev wrong_hardware : Value → Bool
wrong_hardware (str h) = not (str_eq h hardware_name)
wrong_hardware _ = false

-- daemon._validate_readiness_identity
unfoldable pub validate_readiness_identity : Python → Fields → Done
validate_readiness_identity py identity =
    if not (equals_int (get "protocol_version" identity) (pos protocol_version))
    then err (
        protocol
          ("unexpected relay protocol version " <> py.show (get "protocol_version" identity)))
    else if not (equals_int (get "command_model_version" identity) (pos command_model_version))
    then err (
        protocol (
          "unexpected relay command model version "
          <> py.show (get "command_model_version" identity)))
    else if wrong_count (get "relay_count" identity)
    then err (protocol ("unexpected relay count " <> py.show (get "relay_count" identity)))
    else if wrong_hardware (get "hardware" identity)
    then err (protocol ("unexpected relay hardware " <> py.show (get "hardware" identity)))
    else ok tt

module _ (world : World) where
  -- `self.client_factory(port, …)`
  unfoldable pub open_client : String → Act Trace ℕ
  open_client port t = let r = world.open_client t port in (r, open_event port r ∷ t)

  -- a method of a client
  unfoldable pub call : ℕ → Call → Act Trace Fields
  call c m t = (world.call t c m, called c m ∷ t)

  -- `client.close()`
  unfoldable pub close_client : ℕ → Act Trace (Unit {0})
  close_client c t = (world.close_client t c, closed c ∷ t)

  -- `self.serial_selector(serial).port`
  unfoldable pub select_serial : String → Act Trace String
  select_serial serial t = (world.select_serial t serial, selected serial ∷ t)

  -- `_linux_usb_instance_id_for_port(port)`
  unfoldable pub usb_instance : String → Act Trace (Option String)
  usb_instance port t = (ok (world.usb_instance t port), looked_up port ∷ t)

  -- `time.monotonic()`, in milliseconds
  unfoldable pub monotonic_ms : Act Trace ℕ
  monotonic_ms t = (ok (world.monotonic_ms t), timed ∷ t)

  -- RelayDaemon._probe_ready: a client that does not become ready is closed.
  unfoldable pub probe_ready : Python → String → Act Trace Probe
  unfolding open_client call close_client validate_readiness_identity
  probe_ready py port = do
    client ← open_client port
    catch
        (do
          found ← call client Call.identity
          lift (validate_readiness_identity py found)
          now ← call client Call.status
          pure (record { client = client; port = port; status = now }))
        (λ e. close_client client >> raise e)
