-- ===== src/Client.antt =====
-- class RelayClient (host/rp2350_relay_6ch/client.py). The transport is any object with an
-- `exchange` (transport.py, PacketTransport): its answer to a packet is a function of the packets
-- that were sent before, newest first, and the object keeps these in `sent`.

pub mod Retry
pub mod Match
pub mod Arguments
use rp2350_relay_6ch.Prelude.{
  ℕ, zero, suc, ◌+◌, ◌%◌, String, Bool, Bytes, ◌<>◌, Option, none, some, List, [], ◌∷◌, not, ◌==◌,
  if◌then◌else◌,
}
use rp2350_relay_6ch.Prelude.Int.{ℤ, pos, negsuc, pos_part, ltb_ℤ, leb_ℤ}
use rp2350_relay_6ch.Errors.{
  Exc, Result, ok, err, Done, and_then, is_timeout_error, protocol, validation, device, foreign,
}
use rp2350_relay_6ch.Value.{
  check_int, Python, Value, Fields, end, field, int, bool, obj, lookup, get_or, get, as_int, to_int,
}
use rp2350_relay_6ch.Protocol.{
  Code, code_number, op_read, op_read_rsp, op_write, op_write_rsp, group_relay, off_board, off_mask,
  off_pulse, device_error_name,
}
use rp2350_relay_6ch.Smp.{
  Codec, SmpPacket, smp_version_2, encode_packet, decode_packet, encode_payload, decode_payload,
}

-- `timeout_s` in milliseconds: the program only compares it with 0 and hands it on.
pub record RelayClient : Type 0 where
  pub timeout_s : ℤ
  pub retries : ℕ
  pub seq : ℕ
  pub sent : List Bytes

-- RelayClient.__init__
unfoldable pub new_client : ℤ → ℤ → Result RelayClient
new_client timeout_s retries =
    if leb_ℤ timeout_s (pos 0)
    then err (validation "timeout_s must be positive")
    else if ltb_ℤ retries (pos 0)
    then err (validation "retries must be non-negative")
    else ok (record { timeout_s = timeout_s; retries = pos_part retries; seq = 0; sent = [] })

-- The packet transport: the packets sent before, then the packet.
pub record Link : Type 0 where
  pub exchange : List Bytes → Bytes → Result Bytes

-- RelayClient._validate_channel: `isinstance(True, int)` holds, so a bool passes as 0 or 1.
unfoldable pub validate_channel : Value → Done
unfolding check_int
validate_channel v = check_int off_board "channel must be 0..5" (as_int v)

unfoldable pub validate_state_mask : Value → Done
unfolding check_int
validate_state_mask v = check_int off_mask "state must be a six-bit mask 0..0x3f" (as_int v)

-- the test of `pulse_relay`
unfoldable pub validate_duration : Value → Done
unfolding check_int
validate_duration v = check_int off_pulse "duration_ms must be 10..60000" (as_int v)

-- the test of `set_relay`
unfoldable pub validate_on : Value → Done
validate_on (bool b) = ok tt
validate_on _ = err (validation "on must be a bool")

-- RelayClient._next_seq: the new state and the number.
unfoldable pub next_seq : RelayClient → ℕ × RelayClient
next_seq c = (c.seq, record c { seq = (c.seq + 1) % 256 })

-- The calls of the client's methods, with their arguments.
pub data Call : Type 0 where
  identity capabilities build_info get_all_relays off_all_relays status health transport_status
        safety watchdog reboot bootsel heartbeat :
      Call
  get_relay : Value → Call
  set_relay : Value → Value → Call
  set_all_relays : Value → Call
  pulse_relay : Value → Value → Call

unfoldable pub expected_op : ℕ → ℕ
expected_op op = if op == op_read then op_read_rsp else op_write_rsp

module _ (w : Codec) (py : Python) where
  -- the `err` map of a decoded response, once it is a dict
  unfoldable pub raise_device : Fields → Result Fields
  raise_device e = and_then (to_int py (get_or (int (negsuc 0)) (lookup "group" e))) (λ group.
      and_then (to_int py (get_or (int (negsuc 0)) (lookup "rc" e))) (λ rc. err (
        device group rc
          ("device error " <> device_error_name rc <> " (" <> py.show_int rc <> ")"))))

  unfoldable pub raise_if_err : Fields → Value → Result Fields
  unfolding raise_device
  raise_if_err answer (obj e) = raise_device e
  raise_if_err answer _ = ok answer

  -- RelayClient._decode_response
  unfoldable pub decode_response : SmpPacket → ℕ → ℕ → ℕ → Result Fields
  decode_response p op command seq =
      if not (p.version == smp_version_2)
      then err (protocol ("unexpected SMP version " <> py.show_int (pos p.version)))
      else if not (p.op == op)
      then err (
          protocol (
            "unexpected SMP response op "
            <> py.show_int (pos p.op)
            <> ", expected "
            <> py.show_int (pos op)))
      else if not (p.group == group_relay)
      then err (protocol "SMP response group does not match the request")
      else if not (p.command == command)
      then err (protocol "SMP response command does not match the request")
      else if not (p.seq == seq)
      then err (protocol "SMP response sequence does not match the request")
      else and_then (decode_payload w p.payload) (λ answer. raise_if_err answer (get "err" answer))

-- the validation stands before the request: a refused call leaves the client as it was
unfoldable pub guarded :
    Done → (RelayClient → Result Fields × RelayClient) → RelayClient → Result Fields × RelayClient
guarded (ok _) k c = k c
guarded (err e) k c = (err e, c)

-- the packet that RelayClient._request sends
abbrev pub request_packet : Codec → Code → ℕ → Fields → ℕ → SmpPacket
request_packet w command op payload seq = record {
  op = op;
  group = group_relay;
  command = code_number command;
  seq = seq;
  payload = encode_payload w payload;
  flags = 0;
  version = smp_version_2;
}

-- `return` ends the loop, and so does any exception but RelayTimeoutError.
unfoldable pub after_exchange :
    Result Fields → (Exc → Result Fields × RelayClient) → RelayClient → Result Fields × RelayClient
after_exchange (ok answer) rest c = (ok answer, c)
after_exchange (err e) rest c = if is_timeout_error e then rest e else (err e, c)

module _ (w : Codec) (py : Python) (link : Link) where
  -- one turn of the loop of RelayClient._request: exchange, decode and check
  unfoldable pub exchange_once : Bytes → ℕ → ℕ → ℕ → RelayClient → Result Fields × RelayClient
  exchange_once packet op command seq c = (
    and_then (and_then (link.exchange c.sent packet) (decode_packet w py))
        (λ p. decode_response w py p op command seq),
    record c { sent = packet ∷ c.sent },
  )

  -- `assert last_timeout is not None; raise last_timeout`
  raise_last : Option Exc → Result Fields
  raise_last none = err (foreign "AssertionError")
  raise_last (some e) = err e

  -- the loop, with the rounds that are left
  unfoldable pub attempts :
      ℕ → Option Exc → Bytes → ℕ → ℕ → ℕ → RelayClient → Result Fields × RelayClient
  unfolding raise_last after_exchange
  attempts zero last packet op command seq c = (raise_last last, c)
  attempts (suc n) last packet op command seq c =
      let (r, c') = exchange_once packet op command seq c in
      after_exchange r (λ e. attempts n (some e) packet op command seq c') c'

  -- the loop runs once the request is encoded
  send_encoded : Result Bytes → ℕ → ℕ → ℕ → RelayClient → Result Fields × RelayClient
  send_encoded (err e) op command seq c = (err e, c)
  send_encoded (ok packet) op command seq c = attempts (c.retries + 1) none packet op command seq c

  -- RelayClient._request
  unfoldable pub request : Code → ℕ → Fields → RelayClient → Result Fields × RelayClient
  unfolding send_encoded next_seq expected_op
  request command op payload c =
      let (seq, c') = next_seq c in
      send_encoded (encode_packet w (request_packet w command op payload seq)) (expected_op op)
        (code_number command) seq c'

  -- the public methods of RelayClient
  unfoldable pub perform : Call → RelayClient → Result Fields × RelayClient
  unfolding guarded validate_channel validate_on validate_state_mask validate_duration
  perform identity c = request Code.identity op_read end c
  perform capabilities c = request Code.capabilities op_read end c
  perform build_info c = request Code.build_info op_read end c
  perform get_all_relays c = request Code.get_all op_read end c
  perform off_all_relays c = request Code.off_all op_write end c
  perform status c = request Code.status op_read end c
  perform health c = request Code.health op_read end c
  perform transport_status c = request Code.transport op_read end c
  perform safety c = request Code.safety op_read end c
  perform watchdog c = request Code.watchdog op_read end c
  perform reboot c = request Code.reboot op_write end c
  perform bootsel c = request Code.bootsel op_write end c
  perform heartbeat c = request Code.heartbeat op_write end c
  perform (get_relay channel) c =
      guarded (validate_channel channel) (request Code.get op_read (field "channel" channel end)) c
  perform (set_relay channel on) c =
      guarded (and_then (validate_channel channel) (λ _. validate_on on))
        (request Code.set op_write (field "channel" channel (field "on" on end))) c
  perform (set_all_relays state) c =
      guarded (validate_state_mask state) (request Code.set_all op_write (field "state" state end))
        c
  perform (pulse_relay channel duration_ms) c =
      guarded (and_then (validate_channel channel) (λ _. validate_duration duration_ms))
        (request Code.pulse op_write
          (field "channel" channel (field "duration_ms" duration_ms end)))
        c
