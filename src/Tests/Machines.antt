-- ===== src/Tests/Machines.antt =====
-- A machine with a home directory, a serial port and a board, for the theorems on the systemd
-- helpers, the transport and the hardware test.
use rp2350_relay_6ch.Prelude.{◌≡◌, refl, ◌<>◌, String, true, false, none, some, [], ◌∷◌}
use rp2350_relay_6ch.Prelude.Int.{pos}
use rp2350_relay_6ch.Errors.{ok, err, Exc}
use rp2350_relay_6ch.Value.{Fields, field, end, int, get}
use rp2350_relay_6ch.Smp.{Framing, complete}
use rp2350_relay_6ch.Client.{identity, off_all_relays}
use rp2350_relay_6ch.Systemd.{Machine, Files, ran, install_user_unit}
use rp2350_relay_6ch.Systemd.Install.{Unchanged, IsInstalled, install_user_unit-Keeps}
use rp2350_relay_6ch.Systemd.Escape.{IsPaired, escape_arg_lem}
use rp2350_relay_6ch.Systemd.{systemd_escape_arg, systemd_unescape_arg}
use rp2350_relay_6ch.Transport.{Pyserial, new_transport, gave, raised, exchange}
use rp2350_relay_6ch.Transport.Held.{IsHeld, Ended, exchange-Ended, open_ports}
use rp2350_relay_6ch.HardwareSmoke.{TestedClient, method, run, EndsOff, run_turns_off}
use rp2350_relay_6ch.Tests.{python}
use rp2350_relay_6ch.Tests.Instances.{system}

abbrev machine : Machine
machine = record {
  expanduser = λ s. s;
  expandvars = λ s. s;
  abspath = λ s. s;
  join_path = λ a b. a <> "/" <> b;
  executable = "/usr/bin/python3";
  import_package = λ s. ran 0 "" "";
  asset = λ s. ok s;
  unit = λ t a b. ok (t <> a <> b);
  exec_start = λ s. some s;
  is_file = λ s. true;
  write_error = λ s. none;
}

abbrev files : Files
files = record { texts = ("/etc/hosts", "localhost") ∷ []; dirs = [] }

install_user_unit-Keeps_example :
    let (r, files') = install_user_unit system machine false none false files in
    Unchanged files files'
    × (false ≡ true → files' ≡ files)
    × ((out : String) → false ≡ false → r ≡ ok out → IsInstalled system machine none files')
install_user_unit-Keeps_example = install_user_unit-Keeps system machine none false files

escape_arg_lem_example :
    IsPaired (systemd_escape_arg "/opt/100%/py")
    × (systemd_unescape_arg (systemd_escape_arg "/opt/100%/py") ≡ "/opt/100%/py")
escape_arg_lem_example = escape_arg_lem "/opt/100%/py"

-- a port that answers with one line
abbrev pyserial : Pyserial
pyserial = record {
  installed = true;
  construct = λ events. gave 3;
  reset = λ events port. gave tt;
  write = λ events port frame. gave tt;
  read = λ events port. gave ((7 ∷ []) ∷ []);
  close = λ events port. raised "gone";
}

abbrev framing : Framing
framing = record { frames = λ packet. packet ∷ []; feed = λ seen line. complete line }

new_transport-IsHeld : IsHeld new_transport
unfolding open_ports
new_transport-IsHeld = refl

exchange-Ended_example :
    let (r, t) = exchange pyserial framing (1 ∷ []) new_transport in
    IsHeld t × Ended pyserial framing r t
exchange-Ended_example = exchange-Ended pyserial framing (1 ∷ []) new_transport new_transport-IsHeld

abbrev current : TestedClient
current = record { answer = λ calls call. ok (field "protocol_version" (int (pos 9)) end) }

run_turns_off_example :
    let (r, calls) = run python current (int (pos 100)) [] in
    EndsOff python current (int (pos 100)) calls
    × ((who : Fields)
        → current.answer [] (method identity) ≡ ok who
        → get "protocol_version" who ≡ int (pos 9)
        → (calls ≡ method off_all_relays ∷ method identity ∷ []) × ((e : Exc) × (r ≡ err e)))
run_turns_off_example = run_turns_off python current (int (pos 100)) []
