-- ===== src/Transport.antt =====
-- The transports of host/rp2350_relay_6ch/transport.py. pyserial is a parameter: what it does may
-- depend on what was done with the port before, which is kept as a trace, newest first.
pub mod Held
use rp2350_relay_6ch.Prelude.{
  ℕ, suc, String, Bool, true, false, Bytes, Option, none, some, List, [], ◌∷◌, ◌++◌, if◌then◌else◌,
}
use rp2350_relay_6ch.Errors.{
  Exc, Result, ok, err, message, is_timeout_error, timeout, transport, foreign,
}
use rp2350_relay_6ch.Action.{Act, pure, raise, lift, gets, modify, handled, continue, ◌>>=◌, ◌>>◌}
use rp2350_relay_6ch.Smp.{Framing, serial_frames, decoded_serial_frames}

-- what the transport did with ports; a port is named by a number
pub data Event : Type 0 where
  opened closed reset : ℕ → Event
  wrote : ℕ → Bytes → Event

-- what a method of pyserial returned, or the text of the exception that it raised
pub data Outcome {ℓ} (A : Type ℓ) : Type ℓ where
  gave : A → Outcome A
  raised : String → Outcome A

-- `read` is the lines up to the first that is empty; an exception of `readline` comes before the
-- lines that complete a frame.
pub record Pyserial : Type 0 where
  pub installed : Bool
  pub construct : List Event → Outcome ℕ
  pub reset : List Event → ℕ → Outcome (Unit {0})
  pub write : List Event → ℕ → Bytes → Outcome (Unit {0})
  pub read : List Event → ℕ → Outcome (List Bytes)
  pub close : List Event → ℕ → Outcome (Unit {0})

-- SerialSmpTransport
pub record SerialSmpTransport : Type 0 where
  pub serial : Option ℕ
  pub events : List Event

-- `__init__`
abbrev pub new_transport : SerialSmpTransport
new_transport = record { serial = none; events = [] }

-- an exception of pyserial is no RelayError
abbrev pub result_of {ℓ} : {A : Type ℓ} → Outcome A → Result A
result_of (gave a) = ok a
result_of (raised m) = err (foreign m)

-- a method of the port, with its event
abbrev pub with_port : {A : Type 0} → (List Event → Outcome A) → Event → Act SerialSmpTransport A
with_port f event t = (result_of (f t.events), record t { events = event ∷ t.events })

module _ (pyserial : Pyserial) where
  close_serial : Option ℕ → Act SerialSmpTransport (Unit {0})
  close_serial none = pure tt
  close_serial (some port) = with_port (λ events. pyserial.close events port) (closed port)

  -- `close`
  unfoldable pub close : Act SerialSmpTransport (Unit {0})
  unfolding close_serial
  close t = close_serial t.serial (record t { serial = none })

  -- the port that serial.Serial returned is kept
  keep_port : Outcome ℕ → Act SerialSmpTransport ℕ
  keep_port (raised m) t = (err (foreign m), t)
  keep_port (gave port) t =
      (ok port, record t { serial = some port; events = opened port ∷ t.events })

  open_port : Option ℕ → Act SerialSmpTransport ℕ
  unfolding keep_port
  open_port (some port) t = (ok port, t)
  open_port none t =
      if pyserial.installed
      then keep_port (pyserial.construct t.events) t
      else (err (transport "pyserial is required for serial transport"), t)

  -- `_open`
  unfoldable pub open_serial : Act SerialSmpTransport ℕ
  unfolding open_port
  open_serial t = open_port t.serial t

  -- the loop over the frames of a packet
  unfoldable pub write_all : ℕ → List Bytes → Act SerialSmpTransport (Unit {0})
  write_all port [] = pure tt
  write_all port (frame ∷ frames) = do
    with_port (λ events. pyserial.write events port frame) (wrote port frame)
    write_all port frames

  -- `iter(ser.readline, b"")`
  unfoldable pub read_lines : ℕ → Act SerialSmpTransport (List Bytes)
  read_lines port t = (result_of (pyserial.read t.events port), t)

  module _ (framing : Framing) where
    -- what follows once the port is open
    unfoldable pub talk : Bytes → ℕ → Act SerialSmpTransport Bytes
    unfolding write_all read_lines
    talk packet port = do
      with_port (λ events. pyserial.reset events port) (reset port)
      write_all port (serial_frames framing packet)
      lines ← read_lines port
      lift (decoded_serial_frames framing lines "timed out waiting for SMP response")

    -- the two handlers of `exchange`
    unfoldable pub give_up : Exc → Act SerialSmpTransport Bytes
    unfolding close
    give_up e = if is_timeout_error e then raise e else close >> raise (transport (message e))

    unfoldable pub exchange : Bytes → Act SerialSmpTransport Bytes
    unfolding open_serial talk give_up
    exchange packet t = let (r, t') = (open_serial >>= talk packet) t in handled r give_up t'

-- SimulatedPacketTransport, whose responses may be exceptions
pub record SimulatedPacketTransport : Type 0 where
  pub responses : List (Result Bytes)
  pub requests : List Bytes

abbrev pub queue_response : Result Bytes → SimulatedPacketTransport → SimulatedPacketTransport
queue_response response t = record t { responses = t.responses ++ response ∷ [] }

pop_response : List (Result Bytes) → Result Bytes × List (Result Bytes)
pop_response [] = (err (timeout "simulated timeout"), [])
pop_response (response ∷ responses) = (response, responses)

-- its `exchange`; the requests are kept in the order of the calls
unfoldable pub simulate : Bytes → Act SimulatedPacketTransport Bytes
unfolding pop_response
simulate packet t =
    let (r, responses) = pop_response t.responses in
    (r, record { responses = responses; requests = t.requests ++ packet ∷ [] })
