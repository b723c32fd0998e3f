-- ===== src/Session/Connect.antt =====
-- How a session opens a connection, and how it drops one.
use rp2350_relay_6ch.Prelude.{
  ℕ, suc, String, Bool, true, false, ◌&&◌, ◌<>◌, Option, none, some, List, [], ◌∷◌, str_eq,
  if◌then◌else◌,
}
use rp2350_relay_6ch.Prelude.Int.{pos}
use rp2350_relay_6ch.Errors.{Exc, Result, ok, err, is_relay_error}
use rp2350_relay_6ch.Value.{Python, Fields, str, lookup, get_or}
use rp2350_relay_6ch.Client.{Call}
use rp2350_relay_6ch.Cli.{validate_protocol}
use rp2350_relay_6ch.Cli.Format.{mask_of}
use rp2350_relay_6ch.Discovery.{RelayUsbDevice}
use rp2350_relay_6ch.Action.{Act, pure, raise, lift, gets, modify, swallow, ◌>>=◌, ◌>>◌}
use rp2350_relay_6ch.Session.Text.{labelled, format_channels, format_startup_box}
use rp2350_relay_6ch.Session.World.{
  heartbeat_started, heartbeat_stopped, SessionWorld, Session, say, catch_relay, filled,
  open_client, call, close_client, discover,
}

-- _ConnectionProbe
pub record Probe : Type 0 where
  pub client : ℕ
  pub identity : Fields
  pub status : Fields

-- _stop_heartbeat
unfoldable pub stop_heartbeat : Act Session (Unit {0})
stop_heartbeat = modify (λ s. elim s.heartbeat [
  | none ↦ s
  | some c ↦ record s { heartbeat = none; trace = heartbeat_stopped ∷ s.trace }
])

-- _start_heartbeat
unfoldable pub start_heartbeat : Act Session (Unit {0})
start_heartbeat = modify (λ s. elim s.client [
  | none ↦ s
  | some c ↦ record s { heartbeat = some c; trace = heartbeat_started c ∷ s.trace }
])

-- the rows of a device in `_print_devices`
abbrev pub or_unknown : Option String → String
or_unknown o = elim (filled o) [ none ↦ "unknown" | some s ↦ s ]

abbrev pub product_text : Option String → String
product_text o = elim (filled o) [
  | none ↦ "product=unknown status=unverified"
  | some p ↦ "product=" <> p
]

abbrev pub serial_of : Option RelayUsbDevice → Option String
serial_of none = none
serial_of (some d) = d.serial_number

abbrev pub product_of : Option RelayUsbDevice → Option String
product_of none = none
product_of (some d) = d.product

unfoldable pub device_on : String → List RelayUsbDevice → Option RelayUsbDevice
device_on port [] = none
device_on port (d ∷ devices) = if str_eq d.port port then some d else device_on port devices

module _ (world : SessionWorld) (py : Python) where
  -- the end of `_close_current` and of `_enter_disconnected`
  unfoldable pub close_held : Option ℕ → Act Session (Unit {0})
  unfolding close_client
  close_held none = pure tt
  close_held (some c) = close_client world c

  -- _enter_disconnected
  unfoldable pub enter_disconnected : Act Session (Unit {0})
  unfolding stop_heartbeat close_held
  enter_disconnected = do
    stop_heartbeat
    client ← gets (λ s. s.client)
    modify (λ s. record s { client = none; connected = false })
    close_held client

  -- _close_current
  unfoldable pub close_current : Bool → Bool → Act Session (Unit {0})
  unfolding enter_disconnected
  close_current force warn =
      (if force && warn then say "warning: closing without confirmed all-off state" else pure tt)
      >> enter_disconnected

  -- the start of the `try` block of `_probe_connection`
  unfoldable pub probe_opened : ℕ → Act Session (Option Probe)
  unfolding call validate_protocol
  probe_opened client = do
    identity ← call world client Call.identity
    lift (validate_protocol py identity)
    status ← call world client Call.status
    pure (some (record { client = client; identity = identity; status = status }))

  abbrev pub complain : Bool → Exc → Act Session (Unit {0})
  complain quiet e = if quiet then pure tt else say (labelled e)

  -- with no client to close where the opening failed
  unfoldable pub after_open : Bool → Result ℕ → Act Session (Option Probe)
  unfolding probe_opened close_client
  after_open quiet (ok client) =
      catch_relay (probe_opened client)
        (λ e. complain quiet e >> swallow (close_client world client) >> pure none)
  after_open quiet (err e) = if is_relay_error e then complain quiet e >> pure none else raise e

  -- _probe_connection
  unfoldable pub probe_connection : String → Bool → Act Session (Option Probe)
  unfolding after_open open_client
  probe_connection port quiet s = let (r, s') = open_client world port s in after_open quiet r s'

  abbrev pub shown : String → Fields → String
  shown key d = py.show (get_or (str "unknown") (lookup key d))

  -- _print_banner
  unfoldable pub print_banner : Fields → Fields → Act Session (Unit {0})
  unfolding format_startup_box format_channels lookup
  print_banner identity status = do
    state ← lift (mask_of py "state" status)
    pulsing ← lift (mask_of py "pulsing" status)
    s ← gets (λ s. s)
    say (
        format_startup_box (
          ("Connection", "connected")
          ∷ ("Port", elim s.port [ none ↦ "None" | some p ↦ p ])
          ∷ ("Serial", or_unknown s.usb_serial)
          ∷ ("Hardware", shown "hardware" identity)
          ∷ ("Protocol", shown "protocol_version" identity)
          ∷ ("Relay count", shown "relay_count" identity)
          ∷ ("State", "0x" <> py.hex2 state)
          ∷ ("On", format_channels state)
          ∷ ("Pulsing", format_channels pulsing)
          ∷ []))

  -- _adopt_connection
  unfoldable pub adopt_connection :
      Probe → String → Option String → Option String → Act Session (Unit {0})
  unfolding start_heartbeat print_banner
  adopt_connection probe port usb_serial product = do
    modify (λ s. record s {
      client = some probe.client;
      connected = true;
      port = some port;
      usb_serial = usb_serial;
      product = product;
    })
    start_heartbeat
    print_banner probe.identity probe.status

  unfoldable pub adopt_or_drop :
      String → Option String → Option String → Option Probe → Act Session Bool
  unfolding adopt_connection enter_disconnected
  adopt_or_drop port usb_serial product none = enter_disconnected >> pure false
  adopt_or_drop port usb_serial product (some probe) =
      adopt_connection probe port usb_serial product >> pure true

  -- _open
  unfoldable pub open_port : String → Option String → Option String → Act Session Bool
  unfolding probe_connection adopt_or_drop
  open_port port usb_serial product s =
      if s.connected
      then (say "already connected: run 'disconnect' first" >> pure true) s
      else (probe_connection port false >>= adopt_or_drop port usb_serial product) s

  -- _metadata_for_port
  unfoldable pub metadata_for_port : String → Act Session (Option RelayUsbDevice)
  unfolding discover device_on
  metadata_for_port port =
      catch_relay (do devices ← discover world; pure (device_on port devices)) (λ _. pure none)

  -- the lines of `_print_devices` after the first, with the number of the next device
  unfoldable pub print_each : ℕ → List RelayUsbDevice → Act Session (Unit {0})
  print_each index [] = pure tt
  print_each index (d ∷ devices) =
      say (
        "  "
        <> py.show_int (pos index)
        <> ". port="
        <> d.port
        <> " serial="
        <> or_unknown d.serial_number
        <> " "
        <> product_text d.product)
      >> print_each (suc index) devices

  -- _print_devices
  unfoldable pub print_devices : List RelayUsbDevice → Act Session (Unit {0})
  unfolding print_each
  print_devices devices = say "Relay USB candidates:" >> print_each 1 devices

  unfoldable pub print_if_any : List RelayUsbDevice → Act Session (Unit {0})
  unfolding print_devices
  print_if_any [] = pure tt
  print_if_any (d ∷ devices) = print_devices (d ∷ devices)

  -- _print_available_devices
  unfoldable pub print_available_devices : Act Session (Unit {0})
  unfolding discover print_if_any
  print_available_devices = catch_relay (discover world >>= print_if_any) (λ e. say (labelled e))
