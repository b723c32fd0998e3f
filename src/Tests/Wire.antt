-- ===== src/Tests/Wire.antt =====
-- Applications of the theorems on packets and on RelayClient.
use rp2350_relay_6ch.Prelude.{
  ℕ, zero, suc, ◌+◌, ◌%◌, ◌≤◌, ◌<◌, ◌≡◌, ◌≢◌, refl, ◌⊎◌, String, Bytes, [], ◌∷◌, ◌++◌, replicate,
  arith,
}
use rp2350_relay_6ch.Prelude.Int.{pos}
use rp2350_relay_6ch.Errors.{ok, err, timeout, validation}
use rp2350_relay_6ch.Value.{Fields, end, field, int, get}
use rp2350_relay_6ch.Protocol.{Code, code_number, op_read, op_read_rsp}
use rp2350_relay_6ch.Smp.{SmpPacket, encode_packet, decode_packet, decode_payload}
use rp2350_relay_6ch.Client.{
  request_packet, Call, expected_op, decode_response, request, perform, raise_if_err,
}
use rp2350_relay_6ch.Client.Retry.{UsedUp, request_retries, request_answered}
use rp2350_relay_6ch.Client.Match.{Heard, request_matches, late_response_refused}
use rp2350_relay_6ch.Client.Arguments.{IsInRange, send, perform_checked}
use rp2350_relay_6ch.Tests.{python, codec, link, client, reply, exchange}

-- the request of `identity` by the client, and its response
abbrev packet : Bytes
packet = 0 ∷ 1 ∷ 0 ∷ 0 ∷ 64 ∷ 7 ∷ 0 ∷ 0 ∷ []

abbrev response : SmpPacket
response = record {
  op = 1;
  group = 64;
  command = 0;
  seq = 7;
  payload = 5 ∷ [];
  flags = 0;
  version = 1;
}

abbrev response_head : Bytes
response_head = 1 ∷ 1 ∷ 0 ∷ 1 ∷ 64 ∷ 7 ∷ 0 ∷ 0 ∷ []

abbrev answer : Fields
answer = field "state" (int (pos 5)) end

response-decoded : decode_packet codec python (reply packet) ≡ ok response
unfolding decode_packet
response-decoded = refl

packet-encoded :
    encode_packet codec (request_packet codec Code.identity op_read end client.seq) ≡ ok packet
unfolding encode_packet code_number
packet-encoded = refl

request_retries_example :
    let (r, c') = request codec python link Code.identity op_read end client in
    (k : ℕ) × (k ≤ 2)
    × (c'.sent ≡ replicate (suc k) packet ++ [])
    × (c'.seq ≡ (client.seq + 1) % 256)
    × UsedUp r k 2
request_retries_example =
    request_retries codec python link Code.identity op_read end client packet packet-encoded

silent_once :
    (i : ℕ) → i < 1 → (m : String) × (exchange (replicate i packet ++ []) packet ≡ err (timeout m))
silent_once zero h = ("late", refl)
silent_once (suc i) h = absurd (omega arith)

response-accepted :
    decode_response codec python response (expected_op op_read) (code_number Code.identity) 7
    ≡ ok answer
unfolding decode_response expected_op code_number decode_payload raise_if_err get
response-accepted = refl

request_answered_example :
    (request codec python link Code.identity op_read end client).0 ≡ ok answer
request_answered_example =
    request_answered codec python link Code.identity op_read end client packet packet-encoded 1
      (reply packet) response answer (omega arith) silent_once refl response-decoded
      response-accepted

request_matches_example :
    Heard codec python link packet (expected_op op_read) (code_number Code.identity) 7 answer
request_matches_example =
    request_matches codec python link Code.identity op_read end client packet packet-encoded answer
      request_answered_example

late_response_refused_example :
    decode_response codec python response op_read_rsp 0x12
      (request codec python link Code.identity op_read end client).1.seq
    ≢ ok answer
late_response_refused_example =
    late_response_refused codec python link Code.identity op_read end client packet packet-encoded
      response op_read_rsp 0x12 answer (omega arith) refl

abbrev bad_pulse : Call
bad_pulse = Call.pulse_relay (int (pos 2)) (int (pos 5))

perform_checked_example :
    (IsInRange bad_pulse
      × (perform codec python link bad_pulse client ≡ send codec python link bad_pulse client))
    ⊎ (¬ (IsInRange bad_pulse)
        × ((m : String) × (perform codec python link bad_pulse client
              ≡ (err (validation m), client))))
perform_checked_example = perform_checked codec python link bad_pulse client
