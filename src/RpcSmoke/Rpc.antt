-- ===== src/RpcSmoke/Rpc.antt =====
-- The requests of tools/usb_rpc_smoke.py: encode_smp, call, run_one and main. The serial port is a
-- parameter: its answer to a frame is a function of the frames that were written before, newest
-- first, which are the state of a call.
pub mod Answered
pub mod Agrees
use Prim.Native.Nat.{bit_or}
use rp2350_relay_6ch.Prelude.{
  ℕ, ◌+◌, ◌*◌, ◌/◌, ◌%◌, ◌^◌, Bool, true, Option, none, some, Bytes, List, [], ◌∷◌, ◌++◌, ◌<>◌,
  length, ltb, ◌==◌, ◌&&◌, ◌||◌, not, if◌then◌else◌,
}
use rp2350_relay_6ch.Prelude.Int.{ℤ, pos}
use rp2350_relay_6ch.Errors.{Result, ok, err, foreign}
use rp2350_relay_6ch.Value.{Python, bool, int, Fields, end, field}
use rp2350_relay_6ch.Action.{Act, lift, ◌>>=◌}
use rp2350_relay_6ch.RpcSmoke.Cbor.{Utf8, be16, encode_map}
use rp2350_relay_6ch.RpcSmoke.Cbor.Reader.{decode_map}
use rp2350_relay_6ch.RpcSmoke.Frames.{Base64, serial_frame, decoded_frames}

-- what pyserial does with a frame: the lines up to the first that is empty, or an exception
pub record Port : Type 0 where
  pub answer : List Bytes → Bytes → Result (List Bytes)

-- the constants of the tool itself
abbrev pub group_relay : ℕ
group_relay = 64

abbrev pub op_read : ℕ
op_read = 0

abbrev pub op_read_rsp : ℕ
op_read_rsp = 1

abbrev pub op_write : ℕ
op_write = 2

abbrev pub op_write_rsp : ℕ
op_write_rsp = 3

abbrev pub smp_version_2 : ℕ
smp_version_2 = 1

-- struct.pack(">BBHHBB", …) raises struct.error for a number that is out of range
unfoldable pub encode_smp : ℕ → ℕ → ℕ → ℕ → Bytes → Result Bytes
encode_smp op group command seq payload =
    let first = bit_or op (smp_version_2 * 2 ^ 3) in
    if ltb first 256
      && ltb (length payload) (2 ^ 16)
      && ltb group (2 ^ 16)
      && ltb seq 256
      && ltb command 256
    then ok ((first ∷ 0 ∷ (be16 (length payload) ++ (be16 group ++ seq ∷ command ∷ []))) ++ payload)
    else err (foreign "struct.error: argument out of range")

-- `op == OP_READ` and otherwise
unfoldable pub expected_op : ℕ → ℕ
expected_op op = if op == op_read then op_read_rsp else op_write_rsp

-- decode_map of the body; that it is never out of fuel is shown with the reader
unfoldable pub body_of : Option (Result Fields) → Result Fields
body_of none = err (foreign "RecursionError")
body_of (some r) = r

module _ (py : Python) (utf8 : Utf8) where
  -- the response from its first byte on
  unfoldable pub check_response : ℕ → ℕ → Bytes → Result Fields
  unfolding decode_map body_of
  check_response op command (first ∷ flags ∷ n1 ∷ n0 ∷ g1 ∷ g0 ∷ seq ∷ rsp_command ∷ body) =
      if not (first / 2 ^ 3 % 4 == smp_version_2)
      then err
          (foreign ("ValueError: unexpected SMP version " <> py.show_int (pos (first / 2 ^ 3 % 4))))
      else if not (first % 8 == op)
      then err (
          foreign (
            "ValueError: unexpected SMP response op "
            <> py.show_int (pos (first % 8))
            <> ", expected "
            <> py.show_int (pos op)))
      else if not (n1 * 256 + n0 == length body)
      then err (
          foreign (
            "ValueError: SMP length mismatch: header="
            <> py.show_int (pos (n1 * 256 + n0))
            <> " actual="
            <> py.show_int (pos (length body))))
      else if not (g1 * 256 + g0 == group_relay) || not (seq == 1) || not (rsp_command == command)
      then err (foreign "ValueError: SMP response header does not match the request")
      else body_of (decode_map py utf8 body)
  check_response op command _ = err (foreign "struct.error: unpack requires a buffer of 8 bytes")

  module _ (base64 : Base64) (port : Port) where
    -- reset_input_buffer, write and readline
    unfoldable pub write_frame : Bytes → Act (List Bytes) (List Bytes)
    write_frame frame frames = (port.answer frames frame, frame ∷ frames)

    unfoldable pub call : ℕ → ℕ → Fields → Act (List Bytes) Fields
    unfolding encode_map encode_smp serial_frame write_frame decoded_frames expected_op
        check_response
    call command op payload = do
      encoded ← lift (encode_map py utf8 payload)
      request ← lift (encode_smp op group_relay command 1 encoded)
      frame ← lift (serial_frame base64 request)
      lines ← write_frame frame
      response ← lift (decoded_frames base64 lines "timed out waiting for SMP response")
      lift (check_response (expected_op op) command response)

-- args.action of the subcommands but smoke, with the arguments of each
pub data Action : Type 0 where
  identity capabilities build_info get_all status health transport safety watchdog off_all
        invalid_channel invalid_pulse :
      Action
  get : ℤ → Action
  set : ℤ → Bool → Action
  set_all : ℤ → Action
  pulse : ℤ → ℤ → Action

-- args.command_id, which build_parser sets for each subcommand
unfoldable pub command_id : Action → ℕ
command_id identity = 0x00
command_id capabilities = 0x01
command_id build_info = 0x02
command_id get_all = 0x11
command_id status = 0x12
command_id health = 0x13
command_id transport = 0x14
command_id safety = 0x15
command_id watchdog = 0x16
command_id off_all = 0x23
command_id invalid_channel = 0x20
command_id invalid_pulse = 0x22
command_id (get _) = 0x10
command_id (set _ _) = 0x20
command_id (set_all _) = 0x21
command_id (pulse _ _) = 0x22

-- the payload and op of run_one, and the command where it sets it itself
pub record Asked : Type 0 where
  pub op : ℕ
  pub command : ℕ
  pub payload : Fields

abbrev pub on_channel : ℤ → Bool → Fields
on_channel channel on = field "channel" (int channel) (field "on" (bool on) end)

abbrev pub timed : ℤ → ℤ → Fields
timed channel ms = field "channel" (int channel) (field "duration_ms" (int ms) end)

unfoldable pub asked : Action → Asked
unfolding command_id
asked (get channel) = record {
  op = op_read;
  command = command_id (get channel);
  payload = field "channel" (int channel) end;
}
asked (set channel on) = record {
  op = op_write;
  command = command_id (set channel on);
  payload = on_channel channel on;
}
asked (set_all state) = record {
  op = op_write;
  command = command_id (set_all state);
  payload = field "state" (int state) end;
}
asked (pulse channel ms) = record {
  op = op_write;
  command = command_id (pulse channel ms);
  payload = timed channel ms;
}
asked off_all = record { op = op_write; command = command_id off_all; payload = end }
asked invalid_channel = record { op = op_write; command = 0x20; payload = on_channel (pos 6) true }
asked invalid_pulse = record { op = op_write; command = 0x22; payload = timed (pos 0) (pos 1) }
asked action = record { op = op_read; command = command_id action; payload = end }

unfoldable pub run_one : Python → Utf8 → Base64 → Port → Action → Act (List Bytes) Fields
unfolding asked call
run_one py utf8 base64 port action =
    let a = asked action in call py utf8 base64 port a.command a.op a.payload
