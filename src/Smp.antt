-- ===== src/Smp.antt =====
-- SMP packets (host/rp2350_relay_6ch/smp.py). The header codec, the CBOR codec and the serial
-- framing belong to the packages smp and cbor2 and are parameters.
pub mod Packets
use rp2350_relay_6ch.Prelude.{
  ℕ, ◌≡◌, String, Bytes, ◌<>◌, List, [], ◌∷◌, ◌++◌, length, take, drop, ltb, ◌==◌, if◌then◌else◌,
}
use rp2350_relay_6ch.Prelude.Int.{pos}
use rp2350_relay_6ch.Errors.{Exc, Result, ok, err, and_then, protocol, timeout}
use rp2350_relay_6ch.Value.{Python, Fields, obj, Decoded, decoded, malformed}

-- smp.header.Header
pub record Header : Type 0 where
  pub op : ℕ
  pub version : ℕ
  pub flags : ℕ
  pub length : ℕ
  pub group_id : ℕ
  pub sequence : ℕ
  pub command_id : ℕ

-- What `Header.loads` did: a header, AssertionError or ValueError, or another exception.
pub data Loaded : Type 0 where
  loaded : Header → Loaded
  rejected : String → Loaded
  failed : Exc → Loaded

pub record Codec : Type 0 where
  pub header_size : ℕ
  pub dump : Header → Result Bytes
  pub loads : Bytes → Loaded
  pub cbor_dumps : Fields → Bytes
  pub cbor_loads : Bytes → Decoded

pub record SmpPacket : Type 0 where
  pub op : ℕ
  pub group : ℕ
  pub command : ℕ
  pub seq : ℕ
  pub payload : Bytes
  pub flags : ℕ
  pub version : ℕ

-- SMP_VERSION_2
abbrev pub smp_version_2 : ℕ
smp_version_2 = 1

abbrev pub header_of : SmpPacket → Header
header_of p = record {
  op = p.op;
  version = p.version;
  flags = p.flags;
  length = length p.payload;
  group_id = p.group;
  sequence = p.seq;
  command_id = p.command;
}

unfoldable pub encode_packet : Codec → SmpPacket → Result Bytes
encode_packet w p = and_then (w.dump (header_of p)) (λ h. ok (h ++ p.payload))

-- the packet of a decoded header, once the lengths agree
packet_of : Python → Header → Bytes → Result SmpPacket
packet_of py h payload =
    if h.length == length payload
    then ok (record {
      op = h.op;
      group = h.group_id;
      command = h.command_id;
      seq = h.sequence;
      payload = payload;
      flags = h.flags;
      version = h.version;
    })
    else err (
        protocol (
          "SMP length mismatch: header="
          <> py.show_int (pos h.length)
          <> " actual="
          <> py.show_int (pos (length payload))))

load_packet : Python → Loaded → Bytes → Result SmpPacket
unfolding packet_of
load_packet py (loaded h) payload = packet_of py h payload
load_packet py (rejected m) payload = err (protocol m)
load_packet py (failed e) payload = err e

unfoldable pub decode_packet : Codec → Python → Bytes → Result SmpPacket
unfolding load_packet
decode_packet w py bytes =
    if ltb (length bytes) w.header_size
    then err (protocol "SMP packet is shorter than the header")
    else load_packet py (w.loads (take w.header_size bytes)) (drop w.header_size bytes)

abbrev pub encode_payload : Codec → Fields → Bytes
encode_payload w values = w.cbor_dumps values

map_of : Decoded → Result Fields
map_of (malformed m) = err (protocol m)
map_of (decoded (obj d)) = ok d
map_of (decoded _) = err (protocol "CBOR payload is not a map")

unfoldable pub decode_payload : Codec → Bytes → Result Fields
unfolding map_of
decode_payload w bytes = map_of (w.cbor_loads bytes)

-- What the frame decoder of smp.packet does with one more line.
pub data Fed : Type 0 where
  more : Fed
  complete : Bytes → Fed
  bad : String → Fed

-- The decoder is a coroutine: `feed seen line` is its answer to `line` after the lines `seen`.
pub record Framing : Type 0 where
  pub frames : Bytes → List Bytes
  pub feed : List Bytes → Bytes → Fed

-- the rest of the loop is given as a value that is used only if the decoder wants another line
after_feed : Fed → Result Bytes → Result Bytes
after_feed more rest = rest
after_feed (complete b) rest = ok b
after_feed (bad m) rest = err (protocol m)

decode_lines : Framing → String → List Bytes → List Bytes → Result Bytes
unfolding after_feed
decode_lines f note seen [] = err (timeout note)
decode_lines f note seen ([] ∷ lines) = err (timeout note)
decode_lines f note seen ((c ∷ cs) ∷ lines) =
    after_feed (f.feed seen (c ∷ cs)) (decode_lines f note (seen ++ (c ∷ cs) ∷ []) lines)

unfoldable pub decoded_serial_frames : Framing → List Bytes → String → Result Bytes
unfolding decode_lines
decoded_serial_frames f lines note = decode_lines f note [] lines

abbrev pub serial_frames : Framing → Bytes → List Bytes
serial_frames f packet = f.frames packet
