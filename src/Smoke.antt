-- ===== src/Smoke.antt =====
-- The hardware smoke sequence (host/rp2350_relay_6ch/smoke.py). The client is a parameter: its
-- answer to a method is a function of the calls that were made before, newest first.
use rp2350_relay_6ch.Prelude.{String, true, Option, none, some, ℕ, ◌≡◌, List, [], ◌∷◌, arith}
use rp2350_relay_6ch.Prelude.Int.{pos}
use rp2350_relay_6ch.Errors.{Result, ok, err}
use rp2350_relay_6ch.Value.{Value, Items, nil, cons, Fields, end, field, bool, int, str, arr, obj}
use rp2350_relay_6ch.Client.{Call, identity, capabilities, status, pulse_relay, off_all_relays}
use rp2350_relay_6ch.Action.{Act, pure, raise, catch, ◌>>=◌, ◌>>◌}

pub record SmokeRelayClient : Type 0 where
  pub answer : List Call → Call → Result Fields

-- the result of a sequence: the responses in their order, and that of the last all-off
pub record Passed : Type 0 where
  pub results : List Fields
  pub final : Fields

abbrev pub newest : List Call → Option Call
newest [] = none
newest (m ∷ calls) = some m

-- the command of each result, and the label of its channel
abbrev pub result_labels : List (String × Option String)
result_labels =
    ("identity", none)
    ∷ ("capabilities", none)
    ∷ ("status", none)
    ∷ ("pulse", some "CH1")
    ∷ ("pulse", some "CH2")
    ∷ ("pulse", some "CH3")
    ∷ ("pulse", some "CH4")
    ∷ ("pulse", some "CH5")
    ∷ ("pulse", some "CH6")
    ∷ []

abbrev pub result_row : String → Option String → Fields → Fields
result_row command none response =
    field "command" (str command) (field "response" (obj response) end)
result_row command (some channel) response =
    field "command" (str command)
      (field "channel" (str channel) (field "response" (obj response) end))

unfoldable pub result_rows : List (String × Option String) → List Fields → Items
result_rows [] responses = nil
result_rows (label ∷ labels) [] = nil
result_rows ((command, channel) ∷ labels) (response ∷ responses) =
    cons (obj (result_row command channel response)) (result_rows labels responses)

-- what a sequence returns, or raises
unfoldable pub smoke_payload : Result Passed → Result Fields
unfolding result_rows
smoke_payload (ok p) = ok (
    field "ok" (bool true) (
      field "results" (arr (result_rows result_labels p.results))
        (field "final" (obj p.final) end)))
smoke_payload (err e) = err e

module _ (client : SmokeRelayClient) (pulse_ms : Value) where
  unfoldable pub ask : Call → Act (List Call) Fields
  ask m calls = (client.answer calls m, m ∷ calls)

  -- the loop over the channels; `sleep` is not modelled
  unfoldable pub pulse_each : List ℕ → Act (List Call) (List Fields)
  unfolding ask
  pulse_each [] = pure []
  pulse_each (channel ∷ rest) = do
    response ← ask (pulse_relay (int (pos channel)) pulse_ms)
    responses ← pulse_each rest
    pure (response ∷ responses)

  -- the `try` block
  unfoldable pub run_steps : Act (List Call) Passed
  unfolding ask pulse_each
  run_steps = do
    who ← ask identity
    what ← ask capabilities
    now ← ask status
    pulses ← pulse_each (0 ∷ 1 ∷ 2 ∷ 3 ∷ 4 ∷ 5 ∷ [])
    final ← ask off_all_relays
    pure (record { results = who ∷ what ∷ now ∷ pulses; final = final })

  -- run_smoke_sequence: where the block raised, `final` is None and all-off is called again
  unfoldable pub run_smoke_sequence : Act (List Call) Passed
  unfolding run_steps ask
  run_smoke_sequence = catch run_steps (λ e. ask off_all_relays >> raise e)

  -- the calls of a sequence that passed
  abbrev pub Completed : Result Passed → List Call → List Call → Type 0
  Completed (err e) calls calls' = Unit
  Completed (ok p) calls calls' =
      calls'
      ≡ off_all_relays
        ∷ pulse_relay (int (pos 5)) pulse_ms
        ∷ pulse_relay (int (pos 4)) pulse_ms
        ∷ pulse_relay (int (pos 3)) pulse_ms
        ∷ pulse_relay (int (pos 2)) pulse_ms
        ∷ pulse_relay (int (pos 1)) pulse_ms
        ∷ pulse_relay (int (pos 0)) pulse_ms
        ∷ status
        ∷ capabilities
        ∷ identity
        ∷ calls

  -- Whatever the client answers, the last call of a sequence is all-off. A sequence that passes
  -- has called identity, capabilities and status, has pulsed each of the six channels once, in
  -- order, and has turned all relays off once, and nothing else.
  pub run_smoke_sequence_lem :
      (calls : List Call)
      → let (r, calls') = run_smoke_sequence calls in
        (newest calls' ≡ some off_all_relays) × Completed r calls calls'
  unfolding run_smoke_sequence run_steps pulse_each ask
  run_smoke_sequence_lem calls = ground arith
