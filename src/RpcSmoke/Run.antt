-- ===== src/RpcSmoke/Run.antt =====
-- run_smoke of tools/usb_rpc_smoke.py, and main. Printing is not modelled.
pub mod Passed
use rp2350_relay_6ch.Prelude.{
  ℕ, Option, none, some, String, Bool, true, false, none, some, Bytes, List, not, str_eq,
}
use rp2350_relay_6ch.Prelude.Int.{pos}
use rp2350_relay_6ch.Errors.{Result, ok, err, foreign}
use rp2350_relay_6ch.Value.{
  Python, Value, null, int, str, obj, Fields, end, field, get, lookup, equals_int,
}
use rp2350_relay_6ch.Action.{Act, pure, raise, ◌>>=◌, ◌>>◌, lift}
use rp2350_relay_6ch.RpcSmoke.Cbor.{Utf8}
use rp2350_relay_6ch.RpcSmoke.Frames.{Base64}
use rp2350_relay_6ch.RpcSmoke.Rpc.{
  Port, Action, run_one, call, op_read, op_write, group_relay, on_channel, timed,
}

-- `v == s` for a text s, and `v is not None`
abbrev pub equals_str : Value → String → Bool
equals_str (str t) s = str_eq t s
equals_str _ s = false

abbrev pub is_null : Value → Bool
is_null null = true
is_null _ = false

-- require
abbrev pub require : {S : Type 0} → Bool → String → Act S (Unit {0})
require true m = pure tt
require false m = raise (foreign m)

-- `response.get("err", {}).get(key)`; only a dict has `get`
unfoldable pub error_field : String → Fields → Result Value
error_field key response = elim (lookup "err" response) [
  | none ↦ ok null
  | some v ↦ elim v [
    | obj d ↦ ok (get key d)
    | _ ↦ err (foreign "AttributeError: object has no attribute 'get'")
  ]
]

module _ (py : Python) (utf8 : Utf8) (base64 : Base64) (port : Port) where
  -- the checks of the identity
  unfoldable pub require_identity : Fields → Act (List Bytes) (Unit {0})
  require_identity identity = do
    require (equals_int (get "protocol_version" identity) (pos 8)) "protocol_version is not 8"
    require (equals_int (get "command_model_version" identity) (pos 2))
        "command_model_version is not 2"
    require (equals_int (get "relay_count" identity) (pos 6)) "relay_count is not 6"
    require (equals_str (get "hardware" identity) "Waveshare RP2350-Relay-6CH")
        "unexpected hardware name"

  -- a request that the device is to refuse with the error code 2
  unfoldable pub require_refused : String → Fields → Act (List Bytes) (Unit {0})
  unfolding error_field
  require_refused message response = do
    group ← lift (error_field "group" response)
    require (equals_int group (pos group_relay)) "missing group error"
    rc ← lift (error_field "rc" response)
    require (equals_int rc (pos 2)) message

  unfoldable pub run_smoke : Act (List Bytes) (Unit {0})
  unfolding call require_identity require_refused
  run_smoke = do
    identity ← call py utf8 base64 port 0x00 op_read end
    require_identity identity
    capabilities ← call py utf8 base64 port 0x01 op_read end
    require (not (is_null (get "capabilities" capabilities))) "missing capabilities"
    status ← call py utf8 base64 port 0x12 op_read end
    require (equals_int (get "state" status) (pos 0)) "relays are not all off at start"
    call py utf8 base64 port 0x20 op_write (on_channel (pos 0) true)
    call py utf8 base64 port 0x10 op_read (field "channel" (int (pos 0)) end)
    call py utf8 base64 port 0x20 op_write (on_channel (pos 0) false)
    call py utf8 base64 port 0x21 op_write (field "state" (int (pos 0x21)) end)
    call py utf8 base64 port 0x23 op_write end
    call py utf8 base64 port 0x22 op_write (timed (pos 0) (pos 100))
    call py utf8 base64 port 0x10 op_read (field "channel" (int (pos 0)) end)
    invalid_channel ← call py utf8 base64 port 0x20 op_write (on_channel (pos 6) true)
    require_refused "invalid channel was not rejected" invalid_channel
    invalid_pulse ← call py utf8 base64 port 0x22 op_write (timed (pos 0) (pos 1))
    require_refused "invalid pulse was not rejected" invalid_pulse
    final_state ← call py utf8 base64 port 0x23 op_write end
    require (equals_int (get "state" final_state) (pos 0)) "off_all did not leave relays off"

  -- the `try` block of main, with none for the subcommand smoke
  unfoldable pub run_action : Option Action → Act (List Bytes) (Unit {0})
  unfolding run_smoke run_one
  run_action none = run_smoke
  run_action (some action) = run_one py utf8 base64 port action >> pure tt

-- what main returns
abbrev pub exit_code : {A : Type 0} → Result A → ℕ
exit_code (ok a) = 0
exit_code (err e) = 1
