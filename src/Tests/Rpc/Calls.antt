-- ===== src/Tests/Rpc/Calls.antt =====
-- The calls of the USB smoke-test client to a board that answers them in turn.
use rp2350_relay_6ch.Prelude.{
  String, ◌⊎◌, get_elem?, ℕ, ◌+◌, ◌<◌, ◌^◌, ◌≡◌, refl, true, Option, none, some, Bytes, List, [],
  ◌∷◌, ◌++◌, arith, length,
}
use rp2350_relay_6ch.Prelude.Int.{pos}
use rp2350_relay_6ch.Errors.{Result, ok, err, validation}
use rp2350_relay_6ch.Value.{str, int, obj, Fields, field, end, get, lookup}
use rp2350_relay_6ch.RpcSmoke.Crc.{crc_round, crc_rounds, crc_byte, crc16_from}
use rp2350_relay_6ch.RpcSmoke.Cbor.{encode_map}
use rp2350_relay_6ch.RpcSmoke.Cbor.Reader.{decode_map}
use rp2350_relay_6ch.RpcSmoke.Cbor.RoundTrip.{IsKeyed}
use rp2350_relay_6ch.RpcSmoke.Frames.{serial_hdr_pkt, raw_frame, serial_frame, decoded_frames}
use rp2350_relay_6ch.RpcSmoke.Frames.Lines.{frame_line}
use rp2350_relay_6ch.RpcSmoke.Rpc.{
  Port, encode_smp, group_relay, expected_op, op_read, call, asked, Action,
}
use rp2350_relay_6ch.RpcSmoke.Rpc.Answered.{call_answered, call_checked, Heads, Requests}
use rp2350_relay_6ch.RpcSmoke.Rpc.Agrees.{method, asked-perform}
use rp2350_relay_6ch.RpcSmoke.Run.{run_smoke}
use rp2350_relay_6ch.RpcSmoke.Run.Passed.{script, Wrote, IsOff, run_smoke_passed}
use rp2350_relay_6ch.Protocol.{Code, code_number}
use rp2350_relay_6ch.Client
use rp2350_relay_6ch.Client.{Call}
use rp2350_relay_6ch.Client.Arguments.{IsInRange}
use rp2350_relay_6ch.Tests.{python, codec, link, client}
use rp2350_relay_6ch.Tests.Rpc.{utf8, text_of-numbers, base64, base64-IsBase64, log, log-IsNoise}

-- The answers of a board: the response to each request, by their number.
abbrev or_empty : Result Bytes → Bytes
or_empty (ok bytes) = bytes
or_empty (err e) = []

response_line : ℕ → ℕ → Fields → Bytes
response_line op command answer = or_empty (
    serial_frame base64
      (or_empty (encode_smp op group_relay command 1 (or_empty (encode_map python utf8 answer)))))

abbrev off : Fields
off = field "state" (int (pos 0)) end

abbrev refusal : Fields
refusal = field "err" (obj (field "group" (int (pos 64)) (field "rc" (int (pos 2)) end))) end

abbrev identity_of : ℕ → Fields
identity_of version = field "protocol_version" (int (pos version)) (
    field "command_model_version" (int (pos 2))
      (field "relay_count" (int (pos 6)) (field "hardware" (str "Waveshare RP2350-Relay-6CH") end)))

-- the op, command and map of each answer, where the board has this protocol version
abbrev answers : ℕ → List (ℕ × ℕ × Fields)
answers version =
    (1, 0x00, identity_of version)
    ∷ (1, 0x01, field "capabilities" (int (pos 1)) end)
    ∷ (1, 0x12, off)
    ∷ (3, 0x20, off)
    ∷ (1, 0x10, off)
    ∷ (3, 0x20, off)
    ∷ (3, 0x21, off)
    ∷ (3, 0x23, off)
    ∷ (3, 0x22, off)
    ∷ (1, 0x10, off)
    ∷ (3, 0x20, refusal)
    ∷ (3, 0x22, refusal)
    ∷ (3, 0x23, off)
    ∷ []

abbrev lines_of : Option (ℕ × ℕ × Fields) → List Bytes
lines_of none = []
lines_of (some (op, command, answer)) = log ∷ response_line op command answer ∷ []

abbrev board : ℕ → Port
board version = record {
  answer = λ frames frame. ok (lines_of (get_elem? (answers version) (length frames)));
}

-- the request of `identity`
abbrev request : Bytes
request = 8 ∷ 0 ∷ 0 ∷ 1 ∷ 0 ∷ 64 ∷ 1 ∷ 0 ∷ 160 ∷ []

abbrev request_frame : Bytes
request_frame = frame_line base64 serial_hdr_pkt (0 ∷ 11 ∷ (request ++ 128 ∷ 25 ∷ []))

identity-answered :
    call python utf8 base64 (board 9) 0x00 op_read end [] ≡ (ok (identity_of 9), request_frame ∷ [])
unfolding call response_line crc16_from crc_byte crc_rounds crc_round
identity-answered = refl

call_checked_example :
    (frame : Bytes) × (lines : List Bytes) × (response : Bytes) × (body : Bytes) × Requests python
      utf8 base64
      (board 9)
      0x00
      op_read
      end
      frame
    × (request_frame ∷ [] ≡ frame ∷ [])
    × ((board 9).answer [] frame ≡ ok lines)
    × (decoded_frames base64 lines "timed out waiting for SMP response" ≡ ok response)
    × Heads (expected_op op_read) 0x00 response body
    × (decode_map python utf8 body ≡ some (ok (identity_of 9)))
call_checked_example =
    call_checked python utf8 base64 (board 9) 0x00 op_read end (identity_of 9) []
      (request_frame ∷ []) identity-answered

-- a board with the versions that the test asks for
written : List Bytes
written = (run_smoke python utf8 base64 (board 8) []).1

smoke-passed : run_smoke python utf8 base64 (board 8) [] ≡ (ok tt, written)
unfolding run_smoke written response_line crc16_from crc_byte crc_rounds crc_round get
smoke-passed = refl

run_smoke_passed_example :
    Wrote python utf8 base64 (board 8) script [] written
    × IsOff python utf8 base64 (board 8) written
run_smoke_passed_example = run_smoke_passed python utf8 base64 (board 8) [] written smoke-passed

-- a port that answers every frame with the state 0, after a log line
abbrev off_bytes : Bytes
off_bytes = 161 ∷ 101 ∷ 115 ∷ 116 ∷ 97 ∷ 116 ∷ 101 ∷ 0 ∷ []

abbrev status_request : Bytes
status_request = 8 ∷ 0 ∷ 0 ∷ 1 ∷ 0 ∷ 64 ∷ 1 ∷ 0x12 ∷ 160 ∷ []

abbrev status_response : Bytes
status_response = 9 ∷ 0 ∷ 0 ∷ 8 ∷ 0 ∷ 64 ∷ 1 ∷ 0x12 ∷ off_bytes

abbrev framed : Bytes → Bytes
framed packet = frame_line base64 serial_hdr_pkt (raw_frame packet)

abbrev quiet : Port
quiet = record { answer = λ frames frame. ok (log ∷ framed status_response ∷ []) }

off-encoded : encode_map python utf8 off ≡ ok off_bytes
unfolding encode_map
off-encoded = refl

off-IsKeyed : IsKeyed (obj off)
unfolding IsKeyed lookup
off-IsKeyed = (refl, tt, tt)

framed-eq :
    (packet : Bytes) → length packet + 2 < 2 ^ 16 → serial_frame base64 packet ≡ ok (framed packet)
unfolding serial_frame
framed-eq packet h = ground arith

status-packed : encode_smp op_read group_relay 0x12 1 (160 ∷ []) ≡ ok status_request
unfolding encode_smp
status-packed = refl

off-packed : encode_smp (expected_op op_read) group_relay 0x12 1 off_bytes ≡ ok status_response
unfolding encode_smp expected_op
off-packed = refl

none-encoded : encode_map python utf8 end ≡ ok (160 ∷ [])
unfolding encode_map
none-encoded = refl

call_answered_example :
    call python utf8 base64 quiet 0x12 op_read end [] ≡ (ok off, framed status_request ∷ [])
call_answered_example =
    call_answered python utf8 base64 quiet base64-IsBase64 text_of-numbers 0x12 op_read end off []
      (log ∷ []) [] (160 ∷ []) status_request (framed status_request) off_bytes status_response
      (framed status_response) none-encoded status-packed (framed-eq status_request (omega arith))
      off-encoded off-packed (framed-eq status_response (omega arith)) off-IsKeyed (log-IsNoise, tt)
      refl

asked-perform_example :
    let action = Action.set (pos 2) true in
    (code : Code) × (code_number code ≡ (asked action).command)
    × ((IsInRange (method action)
          × (Client.perform codec python link (method action) client
              ≡ Client.request codec python link code
                  (asked action).op
                  (asked action).payload
                  client))
        ⊎ (¬ (IsInRange (method action))
            × ((m : String) × (Client.perform codec python link (method action) client
                  ≡ (err (validation m), client)))))
asked-perform_example = asked-perform codec python link (Action.set (pos 2) true) client
