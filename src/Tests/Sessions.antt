-- ===== src/Tests/Sessions.antt =====
-- A session on a board whose relays are off, and the theorems on sessions at it.
use rp2350_relay_6ch.Prelude.{◌≡◌, ◌≢◌, refl, String, true, false, none, some, List, [], ◌∷◌, arith}
use rp2350_relay_6ch.Prelude.Int.{pos}
use rp2350_relay_6ch.Errors.{Result, ok, err, transport}
use rp2350_relay_6ch.Value.{Fields, end, field, int}
use rp2350_relay_6ch.Client.{Call}
use rp2350_relay_6ch.Discovery.{RelayUsbDevice}
use rp2350_relay_6ch.Session.World.{
  SessionWorld, words, Shell, Input, line, interrupt, SessionOptions, Session, new_session,
}
use rp2350_relay_6ch.Session.Ends.{run-IsAligned, run-ends}
use rp2350_relay_6ch.Session.Safety.{leaving-IsSafe, LeavesSafely}
use rp2350_relay_6ch.Session.Fresh.{handle_reboot-EndsFresh}
use rp2350_relay_6ch.Session.Round.{EndsFresh}
use rp2350_relay_6ch.Session.Accepted.{relay_work-IsAccepted, IsAccepted}
use rp2350_relay_6ch.Session.Failed.{handle_line-Leaves, Leaves}
use rp2350_relay_6ch.Session.Run.{run, run_command_line, handle_line}
use rp2350_relay_6ch.Session.Keeps.{IsAligned}
use rp2350_relay_6ch.Session.Closing.{handle_exit, handle_disconnect}
use rp2350_relay_6ch.Session.Reboot.{handle_reboot}
use rp2350_relay_6ch.Session.Commands.{relay_work}
use rp2350_relay_6ch.Tests.{python}

abbrev device : RelayUsbDevice
device = record {
  port = "COM1";
  serial_number = some "A1";
  product = some "Relay";
  verified_product = true;
}

abbrev state_now : Fields
state_now = field "protocol_version" (int (pos 9)) (
    field "command_model_version" (int (pos 3)) (
      field "state" (int (pos 0))
        (field "pulsing" (int (pos 0)) (field "uptime_ms" (int (pos 9000)) end))))

abbrev reply : Call → Result Fields
reply Call.reboot = ok end
reply Call.health = err (transport "the port is gone")
reply m = ok state_now

abbrev calm : SessionWorld
calm = record {
  open_client = λ t port. ok 1;
  call = λ t c m. reply m;
  close_client = λ t c. ok tt;
  discover = λ t. ok (device ∷ []);
  select_serial = λ t serial. ok device;
}

-- a shell that makes one word of a line
abbrev plain : Shell
plain = record {
  color = false;
  split = λ text. words (text ∷ []);
  parse_connect = λ args. ok (none, none);
  parse_force = λ command args. ok false;
  parse_pulse_ms = λ args. ok (pos 1000);
}

abbrev dumps : Fields → String
dumps d = "{}"

abbrev by_port : SessionOptions
by_port = record { port = some "COM1"; serial = none }

abbrev typed_lines : List Input
typed_lines = line "status" ∷ interrupt ∷ line "exit" ∷ []

abbrev held : Session
held = record (new_session by_port []) { client = some 1; heartbeat = some 1; connected = true }

run-IsAligned_example :
    IsAligned (run calm python plain dumps by_port 4 (new_session by_port typed_lines)).1
run-IsAligned_example = run-IsAligned calm python plain dumps by_port typed_lines 4

run-ends_example :
    let s = new_session by_port typed_lines in
    let last = run calm python plain dumps by_port 4 s in
    (last.0 ≢ ok false) × (run calm python plain dumps by_port 9 s ≡ last)
run-ends_example = run-ends calm python plain dumps by_port typed_lines 9 (omega arith)

-- the session of the example comes to its end by its last line
run-exits : (run calm python plain dumps by_port 4 (new_session by_port typed_lines)).0 ≡ ok true
unfolding run
run-exits = refl

leaving-IsSafe_example :
    LeavesSafely calm python held (handle_exit calm python false held).1
    × LeavesSafely calm python held (handle_disconnect calm python false held).1
leaving-IsSafe_example = leaving-IsSafe calm python held refl

handle_reboot-EndsFresh_example :
    EndsFresh calm python state_now
      (handle_reboot calm python [] (record held { client = some 1 })).1
handle_reboot-EndsFresh_example = handle_reboot-EndsFresh calm python held 1 state_now end refl refl

relay_work-IsAccepted_example : IsAccepted (relay_work python plain "set" ("6" ∷ "on" ∷ []))
relay_work-IsAccepted_example = relay_work-IsAccepted python plain "set" ("6" ∷ "on" ∷ [])

health-fails :
    (run_command_line calm python plain dumps "health" [] held).0
    ≡ err (transport "the port is gone")
unfolding run_command_line
health-fails = refl

handle_line-Leaves_example :
    Leaves calm python plain dumps
      (transport "the port is gone")
      (run_command_line calm python plain dumps "health" [] held).1
      (handle_line calm python plain dumps "health" held).1
handle_line-Leaves_example =
    handle_line-Leaves calm python plain dumps held "health" "health" []
      (transport "the port is gone") refl refl health-fails
