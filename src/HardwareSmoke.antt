-- ===== src/HardwareSmoke.antt =====
-- The manual hardware test of the host library (tools/host_library_hardware_smoke.py). The client
-- is a parameter, as in Smoke; printing is not modelled.
use rp2350_relay_6ch.Prelude.{◌<>◌, ◌≡◌, refl, String, true, false, List, [], ◌∷◌, not}
use rp2350_relay_6ch.Prelude.Int.{ℤ, pos, eqb_ℤ}
use rp2350_relay_6ch.Errors.{Exc, Result, ok, err, device, foreign}
use rp2350_relay_6ch.Value.{Python, obj, Value, Fields, int, bool, get, equals_int}
use rp2350_relay_6ch.Protocol.{protocol_version}
use rp2350_relay_6ch.Client.{
  Call, identity, capabilities, status, get_all_relays, get_relay, set_relay, set_all_relays,
  pulse_relay, off_all_relays,
}
use rp2350_relay_6ch.Action.{Act, pure, raise, ◌>>=◌, ◌>>◌}
use rp2350_relay_6ch.RpcSmoke.Run.{require, equals_str, is_null}

-- a method of RelayClient, or one of the two requests that are sent past its validation
pub data Sent : Type 0 where
  method : Call → Sent
  invalid_channel invalid_pulse : Sent

-- the answer of the client to a call, after those before it, newest first
pub record TestedClient : Type 0 where
  pub answer : List Sent → Sent → Result Fields

-- expect_device_error, once the action has ended
unfoldable pub expect_device_error :
    Python → String → ℤ → Result Fields → Act (List Sent) (Unit {0})
expect_device_error py label rc (err (device group code m)) = do
  require (eqb_ℤ group (pos 64)) (label <> ": expected error group 64, got " <> py.show_int group)
  require (eqb_ℤ code rc)
      (label <> ": expected rc " <> py.show_int rc <> ", got " <> py.show_int code)
expect_device_error py label rc (err e) = raise e
expect_device_error py label rc (ok response) = raise (
    foreign (
      label
      <> ": expected device error rc "
      <> py.show_int rc
      <> ", got "
      <> py.show (obj response)))

-- `finally`: an exception of the last step takes the place of that of the block
abbrev pub finally_of : Result (Unit {0}) → Result Fields → Result (Unit {0})
finally_of r (ok response) = r
finally_of r (err e) = err e

-- an exception of the block is not lost
finally_raises : (e : Exc) (r : Result Fields) → (x : Exc) × (finally_of (err e) r ≡ err x)
finally_raises e (ok response) = (e, refl)
finally_raises e (err x) = (x, refl)

module _ (py : Python) (client : TestedClient) (pulse_ms : Value) where
  unfoldable pub ask : Call → Act (List Sent) Fields
  ask call calls = (client.answer calls (method call), method call ∷ calls)

  -- the action of expect_device_error, whose exception is a value here
  unfoldable pub attempt : Sent → Act (List Sent) (Result Fields)
  attempt sent calls = (ok (client.answer calls sent), sent ∷ calls)

  unfoldable pub require_identity : Fields → Act (List Sent) (Unit {0})
  require_identity who = do
    require (equals_int (get "protocol_version" who) (pos 8)) "protocol_version is not 8"
    require (equals_int (get "command_model_version" who) (pos 2)) "command_model_version is not 2"
    require (equals_int (get "relay_count" who) (pos 6)) "relay_count is not 6"
    require (equals_str (get "hardware" who) "Waveshare RP2350-Relay-6CH")
        "unexpected hardware name"

  -- the `try` block of run
  unfoldable pub run_steps : Act (List Sent) (Unit {0})
  unfolding ask attempt require_identity expect_device_error
  run_steps = do
    who ← ask identity
    require_identity who
    what ← ask capabilities
    require (not (is_null (get "capabilities" what))) "missing capabilities"
    now ← ask status
    require (equals_int (get "state" now) (pos 0)) "relays are not all off at start"
    ask get_all_relays
    ask (set_relay (int (pos 0)) (bool true))
    ask (get_relay (int (pos 0)))
    ask (set_relay (int (pos 0)) (bool false))
    ask (set_all_relays (int (pos 0x21)))
    ask off_all_relays
    ask (pulse_relay (int (pos 0)) pulse_ms)
    ask (get_relay (int (pos 0)))
    channel ← attempt invalid_channel
    expect_device_error py "invalid channel" (pos 2) channel
    pulse ← attempt invalid_pulse
    expect_device_error py "invalid pulse" (pos 2) pulse
    ask status
    pure tt

  -- run, once the client is connected
  unfoldable pub run : Act (List Sent) (Unit {0})
  unfolding run_steps ask
  run calls =
      let (r, calls') = run_steps calls in
      let (r', calls'') = ask off_all_relays calls' in (finally_of r r', calls'')

  -- the last call is all-off
  abbrev pub EndsOff : List Sent → Type 0
  EndsOff [] = ⊥
  EndsOff (call ∷ calls) = call ≡ method off_all_relays

  -- Whatever the client answers, the last call of the test is all-off. On a device with the
  -- protocol version of the host library nothing else is called after identity, and the test
  -- raises.
  pub run_turns_off :
      (calls : List Sent)
      → let (r, calls') = run calls in
        EndsOff calls'
        × ((who : Fields)
            → client.answer calls (method identity) ≡ ok who
            → get "protocol_version" who ≡ int (pos protocol_version)
            → (calls' ≡ method off_all_relays ∷ method identity ∷ calls)
              × ((e : Exc) × (r ≡ err e)))
  unfolding run run_steps ask require_identity
  run_turns_off calls = (refl, λ who h v. rw (h, v) (refl, finally_raises _ _))
