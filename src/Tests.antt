-- ===== src/Tests.antt =====
-- Concrete instances of the parameters: a codec of eight header bytes, a link that is silent once,
-- a board that answers, and the daemon on it. The children apply the theorems to them.
mod Wire
mod Lines
mod Serving
mod Tool
mod Instances
mod Boards
mod Sessions
mod Rpc
mod Machines
use rp2350_relay_6ch.Prelude.{
  true, ℕ, ◌+◌, String, Bytes, Option, none, some, List, [], ◌∷◌, length,
}
use rp2350_relay_6ch.Prelude.Int.{ℤ, pos}
use rp2350_relay_6ch.Errors.{Result, ok, err, timeout}
use rp2350_relay_6ch.Value.{
  Python, Value, Fields, end, field, int, str, obj, Decoded, decoded, malformed,
}
use rp2350_relay_6ch.Config.{ratio}
use rp2350_relay_6ch.Smp.{Codec, Header, loaded, rejected, Loaded}
use rp2350_relay_6ch.Client.{RelayClient, Link, Call}
use rp2350_relay_6ch.Command.{Command}
use rp2350_relay_6ch.Requests.{Request, Json}
use rp2350_relay_6ch.Daemon.World.{World, Trace}
use rp2350_relay_6ch.Daemon.State.{Daemon, DaemonConfig, new_daemon}

abbrev pub python : Python
python = record {
  show_int = λ n. "n";
  show = λ v. "v";
  int_of_text = λ s. none;
  int_of_literal = λ s. some (pos 6);
  int_of_other = λ s. none;
  int_of_decimal = λ s. some (pos 1);
  hex = λ n. "3f";
  hex2 = λ n. "3f";
  sorted = λ l. l;
  strip = λ s. s;
  lower = λ s. s;
  splitlines = λ s. s ∷ [];
  truth = λ s. true;
}

abbrev pub header_bytes : Header → Bytes
header_bytes h =
    h.op ∷ h.version ∷ h.flags ∷ h.length ∷ h.group_id ∷ h.sequence ∷ h.command_id ∷ 0 ∷ []

abbrev pub read_header : Bytes → Loaded
read_header (op ∷ version ∷ flags ∷ len ∷ group ∷ seq ∷ command ∷ z ∷ []) = loaded (record {
  op = op;
  version = version;
  flags = flags;
  length = len;
  group_id = group;
  sequence = seq;
  command_id = command;
})
read_header _ = rejected "bad header"

-- one byte for a map with one entry, none for the empty map
abbrev pub map_bytes : Fields → Bytes
map_bytes end = []
map_bytes (field k v d) = 1 ∷ []

abbrev pub read_map : Bytes → Decoded
read_map [] = decoded (obj end)
read_map (b ∷ l) = decoded (obj (field "state" (int (pos b)) end))

abbrev pub codec : Codec
codec = record {
  header_size = 8;
  dump = λ h. ok (header_bytes h);
  loads = read_header;
  cbor_dumps = map_bytes;
  cbor_loads = read_map;
}

-- the response to a packet: the next operation, and one byte of payload
abbrev pub reply : Bytes → Bytes
reply (op ∷ version ∷ flags ∷ len ∷ group ∷ seq ∷ command ∷ z ∷ l) =
    (op + 1) ∷ version ∷ flags ∷ 1 ∷ group ∷ seq ∷ command ∷ 0 ∷ 5 ∷ []
reply _ = []

-- silent once, then it answers
abbrev pub exchange : List Bytes → Bytes → Result Bytes
exchange [] packet = err (timeout "late")
exchange (_ ∷ _) packet = ok (reply packet)

abbrev pub link : Link
link = record { exchange = exchange }

abbrev pub client : RelayClient
client = record { timeout_s = pos 1000; retries = 2; seq = 7; sent = [] }

abbrev pub identity : Fields
identity = field "protocol_version" (int (pos 9)) (field "command_model_version" (int (pos 3)) end)

abbrev pub uptime : ℕ → Fields
uptime n = field "uptime_ms" (int (pos n)) end

-- A board whose uptime falls once the reboot was called: the call is the third of a run or later.
abbrev pub answer_of : Trace → Call → Result Fields
answer_of t Call.identity = ok identity
answer_of t Call.status = ok (uptime (100 + length t))
answer_of t Call.heartbeat = err (timeout "late")
answer_of t _ = ok end

abbrev pub world : World
world = record {
  open_client = λ t port. ok (length t);
  call = λ t c m. answer_of t m;
  close_client = λ t c. ok tt;
  select_serial = λ t serial. ok "COM1";
  usb_instance = λ t port. some "usb-1";
  monotonic_ms = λ t. 9000;
}

abbrev pub config : DaemonConfig
config = record {
  selector_type = "port";
  selector_value = "COM1";
  socket_path = "/run/relay.sock";
  baud = pos 115200;
  timeout = ratio (pos 2) 0;
  retries = pos 1;
  reconnect_interval = ratio (pos 1) 0;
  wait_device = true;
}

-- connected, with client 3
abbrev pub up : Daemon
up = record new_daemon { client = some 3; connected = true; current_port = some "COM1" }

-- waiting for the board since 1000 ms, its USB instance having been seen missing
abbrev pub rebooting : Daemon
rebooting = record new_daemon {
  reboot_recovery = true;
  reboot_started_at = some 1000;
  reboot_pre_status = some (uptime 50000);
  reboot_usb_instance = some "usb-1";
  reboot_missing_seen = true;
}

abbrev pub asked_for : Command → Fields → Request
asked_for command args = record {
  request_id = str "a";
  command = command;
  args = args;
  accepted_order = 1;
}

abbrev pub json : Json
json = record { dumps = λ v. 123 ∷ []; loads = λ b. malformed "no JSON" }
