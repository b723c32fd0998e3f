-- ===== src/Session/World.antt =====
-- The state of a session and its ways to the outside. Each answer is a function of all that
-- happened before, newest first. What the user types is part of the state.
use rp2350_relay_6ch.Prelude.{ℕ, String, Bool, false, Option, none, List, [], ◌∷◌, if◌then◌else◌}
use rp2350_relay_6ch.Prelude.Int.{ℤ}
use rp2350_relay_6ch.Errors.{Exc, Result, ok, err, Done, is_relay_error}
use rp2350_relay_6ch.Value.{Fields}
pub use rp2350_relay_6ch.Value.{filled}
use rp2350_relay_6ch.Client.{Call}
use rp2350_relay_6ch.Discovery.{RelayUsbDevice}
use rp2350_relay_6ch.Action.{Act, modify}

-- A client object is known by a number.
pub data Event : Type 0 where
  opened : String → ℕ → Event
  open_failed : String → Event
  called : ℕ → Call → Event
  closed : ℕ → Event
  discovered : Event
  selected : String → Event
  slept : Event
  printed : String → Event
  prompted : String → Event
  heartbeat_started : ℕ → Event
  heartbeat_stopped : Event

abbrev pub Trace : Type 0
Trace = List Event

pub record SessionWorld : Type 0 where
  pub open_client : Trace → String → Result ℕ
  pub call : Trace → ℕ → Call → Result Fields
  pub close_client : Trace → ℕ → Done
  pub discover : Trace → Result (List RelayUsbDevice)
  pub select_serial : Trace → String → Result RelayUsbDevice

-- What `shlex.split` made of a line: the words, or the text of its ValueError.
pub data Words : Type 0 where
  words : List String → Words
  bad_line : String → Words

-- What a session takes from shlex, from argparse (the words of `connect`, of a command with
-- `--force` and of `smoke`) and from the terminal (_prompt_color_enabled).
pub record Shell : Type 0 where
  pub color : Bool
  pub split : String → Words
  pub parse_connect : List String → Result (Option String × Option String)
  pub parse_force : String → List String → Result Bool
  pub parse_pulse_ms : List String → Result ℤ

-- a line, Ctrl-C, or an end of the input (Ctrl-D) after which more may be typed; the input is at
-- its end for good where nothing is left
pub data Input : Type 0 where
  line : String → Input
  interrupt end_of_file : Input

-- SessionOptions, without what only the serial transport reads.
pub record SessionOptions : Type 0 where
  pub port : Option String
  pub serial : Option String

pub record Session : Type 0 where
  pub client : Option ℕ
  pub heartbeat : Option ℕ
  pub port : Option String
  pub usb_serial : Option String
  pub preferred_port : Option String
  pub preferred_serial : Option String
  pub product : Option String
  pub connected : Bool
  pub should_exit : Bool
  pub input : List Input
  pub trace : Trace

-- RelaySession.__init__
abbrev pub new_session : SessionOptions → List Input → Session
new_session options input = record {
  client = none;
  heartbeat = none;
  port = options.port;
  usb_serial = options.serial;
  preferred_port = options.port;
  preferred_serial = options.serial;
  product = none;
  connected = false;
  should_exit = false;
  input = input;
  trace = [];
}

abbrev pub note : Event → Session → Session
note e s = record s { trace = e ∷ s.trace }

-- `print(text, file=self.output)`
abbrev pub say : String → Act Session (Unit {0})
say text = modify (note (printed text))

abbrev pub rest : Act Session (Unit {0})
rest = modify (note slept)

-- `except RelayError as exc`, with its handler
abbrev pub handled_relay {ℓ} :
    {S : Type 0} {A : Type ℓ} → Result A → (Exc → S → Result A × S) → S → Result A × S
handled_relay (ok a) h s = (ok a, s)
handled_relay (err e) h s = if is_relay_error e then h e s else (err e, s)

abbrev pub catch_relay : {S A : Type 0} → Act S A → (Exc → Act S A) → Act S A
catch_relay m h s = let (r, s') = m s in handled_relay r h s'

abbrev open_event : String → Result ℕ → Event
open_event port (ok c) = opened port c
open_event port (err _) = open_failed port

module _ (world : SessionWorld) where
  unfoldable pub open_client : String → Act Session ℕ
  open_client port s = let r = world.open_client s.trace port in (r, note (open_event port r) s)

  unfoldable pub call : ℕ → Call → Act Session Fields
  call c m s = (world.call s.trace c m, note (called c m) s)

  unfoldable pub close_client : ℕ → Act Session (Unit {0})
  close_client c s = (world.close_client s.trace c, note (closed c) s)

  unfoldable pub discover : Act Session (List RelayUsbDevice)
  discover s = (world.discover s.trace, note discovered s)

  unfoldable pub select_serial : String → Act Session RelayUsbDevice
  select_serial serial s = (world.select_serial s.trace serial, note (selected serial) s)
