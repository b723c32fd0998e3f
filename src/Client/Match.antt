-- ===== src/Client/Match.antt =====
-- Which responses RelayClient accepts.
use rp2350_relay_6ch.Prelude.{
  ℕ, zero, suc, ◌+◌, ◌%◌, ◌<◌, ◌≡◌, ◌≢◌, ◌⊎◌, inl, inr, Bytes, Option, none, some, List, arith,
}
use rp2350_relay_6ch.Errors.{Result-cases, Exc, Result, ok, err, timeout, and_then, and_then-eq-ok}
use rp2350_relay_6ch.Value.{Python, Value, Fields, obj, get, as_dict}
use rp2350_relay_6ch.Protocol.{Code, code_number, group_relay}
use rp2350_relay_6ch.Smp.{
  Codec, SmpPacket, smp_version_2, encode_packet, decode_packet, decode_payload,
}
use rp2350_relay_6ch.Client.Retry.{request_retries}
use rp2350_relay_6ch.Client.{
  RelayClient, Link, expected_op, decode_response, exchange_once, after_exchange, attempts,
  request_packet, request, raise_device, raise_if_err,
}

module _ (w : Codec) (py : Python) where
  -- The response `p` answers the request of this operation, command and number with `answer`.
  pub record Answers (p : SmpPacket) (expected code number : ℕ) (answer : Fields) : Type 0 where
    pub version : p.version ≡ smp_version_2
    pub op : p.op ≡ expected
    pub group : p.group ≡ group_relay
    pub command : p.command ≡ code
    pub seq : p.seq ≡ number
    pub payload : decode_payload w p.payload ≡ ok answer
    pub no_error : as_dict (get "err" answer) ≡ none

  raise_if_err-eq-ok :
      (a b : Fields) (v : Value) → raise_if_err w py a v ≡ ok b → (a ≡ b) × (as_dict v ≡ none)
  unfolding raise_if_err raise_device
  raise_if_err-eq-ok a b (obj e) h = ground arith
  raise_if_err-eq-ok a b v h = ground arith

  decode_response-Answers :
      (p : SmpPacket) (op command seq : ℕ) (answer : Fields)
      → decode_response w py p op command seq ≡ ok answer
      → Answers p op command seq answer
  unfolding decode_response
  decode_response-Answers p op command seq answer h =
      elim (Result-cases (decode_payload w p.payload)) [
        | inl (a, e) ↦ ground (arith, raise_if_err-eq-ok a answer (get "err" a))
        | inr (x, e) ↦ ground arith
      ]

after_exchange-eq-ok :
    (r : Result Fields) (rest : Exc → Result Fields × RelayClient) (c : RelayClient)
    (answer : Fields)
    → (after_exchange r rest c).0 ≡ ok answer
    → (r ≡ ok answer) ⊎ ((e : Exc) × ((rest e).0 ≡ ok answer))
unfolding after_exchange
after_exchange-eq-ok (ok a) rest c answer h = inl h
after_exchange-eq-ok (err (timeout m)) rest c answer h = inr (timeout m, h)
after_exchange-eq-ok (err e) rest c answer h = cc

module _ (w : Codec) (py : Python) (link : Link) where
  -- Some exchange of the packet brought a response that answers it.
  abbrev pub Heard : Bytes → ℕ → ℕ → ℕ → Fields → Type 0
  Heard packet op command seq answer =
      (history : List Bytes) × (bytes : Bytes) × (p : SmpPacket) × (link.exchange history packet
        ≡ ok bytes)
      × (decode_packet w py bytes ≡ ok p)
      × Answers w py p op command seq answer

  exchange_once-Heard :
      (packet : Bytes) (op command seq : ℕ) (c : RelayClient) (answer : Fields)
      → (exchange_once w py link packet op command seq c).0 ≡ ok answer
      → Heard packet op command seq answer
  unfolding exchange_once
  exchange_once-Heard packet op command seq c answer h =
      let (p, read, accepted) =
        and_then-eq-ok (and_then (link.exchange c.sent packet) (decode_packet w py))
          (λ p. decode_response w py p op command seq) h in
      let (bytes, got, parsed) =
        and_then-eq-ok (link.exchange c.sent packet) (decode_packet w py) read in
      (c.sent, bytes, p, got, parsed, decode_response-Answers w py p op command seq answer accepted)

  attempts-Heard :
      (n : ℕ) (last : Option Exc) (packet : Bytes) (op command seq : ℕ) (c : RelayClient)
      (answer : Fields)
      → (attempts w py link n last packet op command seq c).0 ≡ ok answer
      → Heard packet op command seq answer
  unfolding attempts
  attempts-Heard zero none packet op command seq c answer h = cc
  attempts-Heard zero (some e) packet op command seq c answer h = cc
  attempts-Heard (suc n) last packet op command seq c answer h =
      let (r, c') = exchange_once w py link packet op command seq c in
      elim (after_exchange-eq-ok r _ c' answer h) [
        | inl e ↦ exchange_once-Heard packet op command seq c answer e
        | inr (e, h') ↦ attempts-Heard n (some e) packet op command seq c' answer h'
      ]

  module _ (command : Code) (op : ℕ) (payload : Fields) (c : RelayClient) (packet : Bytes)
      (encoded : encode_packet w (request_packet w command op payload c.seq) ≡ ok packet) where
    -- A request returns only what a response of the transport holds that has SMP version 2, the
    -- response operation of the request, the relay group, its command and its sequence number,
    -- whose payload is that map, without a device error.
    pub request_matches :
        (answer : Fields)
        → (request w py link command op payload c).0 ≡ ok answer
        → Heard packet (expected_op op) (code_number command) c.seq answer
    unfolding request
    request_matches answer h =
        attempts-Heard (c.retries + 1) none packet (expected_op op) (code_number command) c.seq
          (record c { seq = (c.seq + 1) % 256 }) answer (rw encoded at h)

    -- After a request, a late response to it (one that carries its number) is no answer to the
    -- next request, whatever that asks for.
    pub late_response_refused :
        (p : SmpPacket) (op' code : ℕ) (answer : Fields)
        → c.seq < 256
        → p.seq ≡ c.seq
        → decode_response w py p op' code (request w py link command op payload c).1.seq ≢ ok answer
    late_response_refused p op' code answer small late h =
        let (k, _, _, next, _) = request_retries w py link command op payload c packet encoded in
        omega (arith, (decode_response-Answers w py p op' code _ answer h).seq)
