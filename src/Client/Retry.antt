-- ===== src/Client/Retry.antt =====
-- The retry loop of RelayClient._request.
use rp2350_relay_6ch.Prelude.{
  ℕ, zero, suc, ◌+◌, ◌%◌, ◌≤◌, ◌<◌, ◌≡◌, refl, ap, ◌∙◌, String, Bytes, Option, none, some, ◌∷◌,
  ◌++◌, replicate, replicate-append, arith,
}
use rp2350_relay_6ch.Errors.{Exc, Result, ok, err, timeout}
use rp2350_relay_6ch.Value.{Python, Fields}
use rp2350_relay_6ch.Protocol.{Code, code_number}
use rp2350_relay_6ch.Smp.{Codec, SmpPacket, encode_packet, decode_packet}
use rp2350_relay_6ch.Client.{
  RelayClient, Link, expected_op, decode_response, exchange_once, after_exchange, attempts,
  request_packet, request,
}

-- How a run of the loop left the client: the packet was sent `tries` times and nothing else was.
pub record Tried (packet : Bytes) (c c' : RelayClient) (tries : ℕ) : Type 0 where
  pub sent : c'.sent ≡ replicate tries packet ++ c.sent
  pub seq : c'.seq ≡ c.seq
  pub retries : c'.retries ≡ c.retries

-- What a run of `n` rounds did, by the exchanges it made: at least one if there is a round, all of
-- them if the last one timed out.
abbrev Ran : ℕ → Bytes → RelayClient → Result Fields × RelayClient → Type 0
Ran n packet c (r, c') =
    (k : ℕ) × (k ≤ n)
    × Tried packet c c' k
    × ((m : String) → r ≡ err (timeout m) → k ≡ n)
    × (0 < n → 0 < k)

after_exchange-Ran :
    (n : ℕ) (packet : Bytes) (c c' : RelayClient) (r : Result Fields)
    (rest : Exc → Result Fields × RelayClient)
    → Tried packet c c' 1
    → ((e : Exc) → Ran n packet c' (rest e))
    → Ran (suc n) packet c (after_exchange r rest c')
unfolding after_exchange
after_exchange-Ran n packet c c' (ok a) rest once again =
    (1, omega arith, once, λ m h. cc, λ h. omega arith)
after_exchange-Ran n packet c c' (err (timeout m)) rest once again =
    let (k, le, t, all, some_round) = again (timeout m) in
    (
      suc k,
      omega arith,
      record {
        sent = t.sent ∙ rw once.sent (replicate-append k packet c.sent);
        seq = t.seq ∙ once.seq;
        retries = t.retries ∙ once.retries;
      },
      λ m' h. ap suc (all m' h),
      λ h. omega arith,
    )
after_exchange-Ran n packet c c' (err e) rest once again =
    (1, omega arith, once, λ m h. cc, λ h. omega arith)

first_round :
    (n : ℕ) (packet : Bytes) (c : RelayClient) (out : Result Fields × RelayClient)
    → Ran (n + 1) packet c out
    → (k : ℕ) × (k ≤ n)
      × Tried packet c out.1 (suc k)
      × ((m : String) → out.0 ≡ err (timeout m) → k ≡ n)
first_round n packet c out (zero, le, t, all, some_round) = absurd (omega (arith, some_round))
first_round n packet c out (suc k, le, t, all, some_round) =
    (k, omega arith, t, λ m h. omega (arith, all m h))

-- a request that ended in a timeout used every retry
abbrev pub UsedUp : Result Fields → ℕ → ℕ → Type 0
UsedUp (err (timeout m)) k retries = k ≡ retries
UsedUp _ k retries = Unit

used_up :
    (r : Result Fields) (k retries : ℕ)
    → ((m : String) → r ≡ err (timeout m) → k ≡ retries)
    → UsedUp r k retries
used_up (err (timeout m)) k retries all = all m refl
used_up (err e) k retries all = tt
used_up (ok a) k retries all = tt

module _ (w : Codec) (py : Python) (link : Link) where
  attempts-Ran :
      (n : ℕ) (last : Option Exc) (packet : Bytes) (op command seq : ℕ) (c : RelayClient)
      → Ran n packet c (attempts w py link n last packet op command seq c)
  unfolding attempts exchange_once
  attempts-Ran zero last packet op command seq c =
      (0, omega arith, record { sent = refl; seq = refl; retries = refl }, λ m h. refl, λ h. h)
  attempts-Ran (suc n) last packet op command seq c =
      let (r, c') = exchange_once w py link packet op command seq c in
      after_exchange-Ran n packet c c' r _ (record { sent = refl; seq = refl; retries = refl })
        (λ e. attempts-Ran n (some e) packet op command seq c')

  -- Rounds that time out cost one packet each; the first answer that is accepted is the result.
  attempts_answer :
      (k n : ℕ) (last : Option Exc) (packet bytes : Bytes) (op command seq : ℕ) (c : RelayClient)
      (p : SmpPacket) (answer : Fields)
      → k < n
      → ((i : ℕ)
          → i < k
          → (m : String) × (link.exchange (replicate i packet ++ c.sent) packet ≡ err (timeout m)))
      → link.exchange (replicate k packet ++ c.sent) packet ≡ ok bytes
      → decode_packet w py bytes ≡ ok p
      → decode_response w py p op command seq ≡ ok answer
      → (attempts w py link n last packet op command seq c).0 ≡ ok answer
  unfolding attempts exchange_once after_exchange
  attempts_answer k zero last packet bytes op command seq c p answer lt _ _ _ _ = elim lt [ ]
  attempts_answer zero (suc n) last packet bytes op command seq c p answer lt silent hit dp dr =
      rw hit (rw dp (rw dr))
  attempts_answer (suc k) (suc n) last packet bytes op command seq c p answer lt silent hit dp dr =
      let (m, e) = silent 0 (omega arith) in
      rw e (
        attempts_answer k n (some (timeout m)) packet bytes op command seq
          (record c { sent = packet ∷ c.sent }) p answer (omega arith)
          (λ i h. rw (replicate-append i packet c.sent) (silent (suc i) (omega arith)))
          (rw (replicate-append k packet c.sent) hit) dp dr)

  module _ (command : Code) (op : ℕ) (payload : Fields) (c : RelayClient) (packet : Bytes)
      (encoded : encode_packet w (request_packet w command op payload c.seq) ≡ ok packet) where
    -- One request sends one packet and repeats it at most `retries` times; a request that ends in
    -- a timeout has used every retry. The next request has the next number.
    pub request_retries :
        let (r, c') = request w py link command op payload c in
        (k : ℕ) × (k ≤ c.retries)
        × (c'.sent ≡ replicate (suc k) packet ++ c.sent)
        × (c'.seq ≡ (c.seq + 1) % 256)
        × UsedUp r k c.retries
    unfolding request
    request_retries =
        let c' : RelayClient = record c { seq = (c.seq + 1) % 256 } in
        let (k, le, t, all) = first_round c.retries packet c' _ (
          attempts-Ran (c.retries + 1) none packet (expected_op op) (code_number command) c.seq
            c') in
        rw encoded (k, le, t.sent, t.seq, used_up _ k c.retries all)

    -- A device that stays silent at most `retries` times and then answers the request is heard.
    pub request_answered :
        (k : ℕ) (bytes : Bytes) (p : SmpPacket) (answer : Fields)
        → k ≤ c.retries
        → ((i : ℕ)
            → i < k
            → (m : String) × (link.exchange (replicate i packet ++ c.sent) packet
                ≡ err (timeout m)))
        → link.exchange (replicate k packet ++ c.sent) packet ≡ ok bytes
        → decode_packet w py bytes ≡ ok p
        → decode_response w py p (expected_op op) (code_number command) c.seq ≡ ok answer
        → (request w py link command op payload c).0 ≡ ok answer
    unfolding request
    request_answered k bytes p answer le silent hit dp dr = rw encoded (
        attempts_answer k (c.retries + 1) none packet bytes (expected_op op) (code_number command)
          c.seq (record c { seq = (c.seq + 1) % 256 }) p answer (omega arith) silent hit dp dr)
