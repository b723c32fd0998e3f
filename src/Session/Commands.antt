-- ===== src/Session/Commands.antt =====
-- The relay commands of a line: how their words are read, and the call they make.
use rp2350_relay_6ch.Prelude.{
  String, Bool, ◌<>◌, ◌==◌, ℕ, suc, Option, none, some, List, [], ◌∷◌, ◌++◌, map, length, str_eq,
  if◌then◌else◌,
}
use rp2350_relay_6ch.Prelude.Int.{ℤ, pos, ltb_ℤ}
use rp2350_relay_6ch.Errors.{Result, ok, err, Done, and_then, validation, transport, foreign}
use rp2350_relay_6ch.Value.{Python, Fields, int, bool}
use rp2350_relay_6ch.Protocol.{relay_count}
use rp2350_relay_6ch.Client.{
  Call, identity, capabilities, build_info, get_all_relays, off_all_relays, status, health,
  transport_status, safety, watchdog, get_relay, set_relay, set_all_relays, pulse_relay,
}
use rp2350_relay_6ch.Cli.{Parsed, parsed, bad_argument, parse_state, parse_on_off}
use rp2350_relay_6ch.Cli.Format.Results.{format_human}
use rp2350_relay_6ch.Smoke.{SmokeRelayClient, smoke_payload, run_smoke_sequence}
use rp2350_relay_6ch.Action.{Act, pure, raise, lift, ◌>>=◌}
use rp2350_relay_6ch.Session.World.{called, Trace, SessionWorld, Shell, Session, say, call}

-- what a relay command does with the client
pub data Work : Type 0 where
  calling : Call → Work
  smoking : ℤ → Work

-- _expect_arg_count
unfoldable pub expect_arg_count : Python → String → List String → ℕ → Done
expect_arg_count py command args count =
    if length args == count
    then ok tt
    else err (validation (command <> " takes " <> py.show_int (pos count) <> " argument(s)"))

-- argparse.ArgumentTypeError becomes RelayValidationError
unfoldable pub of_parsed : {A : Type 0} → Parsed A → Result A
of_parsed (parsed a) = ok a
of_parsed (bad_argument m) = err (validation m)

-- `channel - 1`, of a channel that is one of the board's labels
abbrev pub channel_index : ℤ → Result ℤ
channel_index (pos (suc k)) =
    if ltb_ℤ (pos relay_count) (pos (suc k))
    then err (validation "channel must be 1..6")
    else ok (pos k)
channel_index _ = err (validation "channel must be 1..6")

-- The calls of the commands without arguments.
abbrev pub plain_calls : List (String × Call)
plain_calls =
    ("identity", identity)
    ∷ ("capabilities", capabilities)
    ∷ ("build-info", build_info)
    ∷ ("get-all", get_all_relays)
    ∷ ("off-all", off_all_relays)
    ∷ ("status", status)
    ∷ ("health", health)
    ∷ ("transport", transport_status)
    ∷ ("safety", safety)
    ∷ ("watchdog", watchdog)
    ∷ []

unfoldable pub plain_call : String → List (String × Call) → Option Call
plain_call command [] = none
plain_call command (entry ∷ table) =
    if str_eq command entry.0 then some entry.1 else plain_call command table

module _ (py : Python) where
  -- _parse_int_arg
  unfoldable pub parse_int_arg : String → Result ℤ
  parse_int_arg text = elim (py.int_of_literal text) [
    | none ↦ err (validation "value must be an integer")
    | some n ↦ ok n
  ]

  -- _parse_channel_arg
  unfoldable pub parse_channel_arg : String → Result ℤ
  unfolding parse_int_arg
  parse_channel_arg text = and_then (parse_int_arg text) channel_index

  -- _parse_state_arg
  unfoldable pub parse_state_arg : String → Result ℤ
  unfolding parse_state of_parsed
  parse_state_arg text = of_parsed (parse_state py text)

  -- _parse_on_off_arg
  unfoldable pub parse_on_off_arg : String → Result Bool
  unfolding parse_on_off of_parsed
  parse_on_off_arg text = of_parsed (parse_on_off (py.lower text))

  -- `args[0]`, and `args[1]` beside it; the count of the words is tested first
  unfoldable pub with_none : String → List String → Work → Result Work
  unfolding expect_arg_count
  with_none command args w = and_then (expect_arg_count py command args 0) (λ _. ok w)

  unfoldable pub with_one : String → List String → (String → Result Work) → Result Work
  unfolding expect_arg_count
  with_one command (a ∷ []) k = k a
  with_one command args k =
      and_then (expect_arg_count py command args 1) (λ _. err (foreign "IndexError"))

  unfoldable pub with_two : String → List String → (String → String → Result Work) → Result Work
  unfolding expect_arg_count
  with_two command (a ∷ b ∷ []) k = k a b
  with_two command args k =
      and_then (expect_arg_count py command args 2) (λ _. err (foreign "IndexError"))

  unfoldable pub other_work : Shell → String → List String → Result Work
  unfolding with_one with_two parse_channel_arg parse_on_off_arg parse_state_arg parse_int_arg
  other_work shell command args =
      if str_eq command "get"
      then with_one command args
          (λ a. and_then (parse_channel_arg a) (λ channel. ok (calling (get_relay (int channel)))))
      else if str_eq command "set"
      then with_two command args (λ a b. and_then (parse_channel_arg a) (λ channel.
        and_then (parse_on_off_arg b) (λ on. ok (calling (set_relay (int channel) (bool on))))))
      else if str_eq command "set-all"
      then with_one command args
          (λ a. and_then (parse_state_arg a) (λ state. ok (calling (set_all_relays (int state)))))
      else if str_eq command "pulse"
      then with_two command args (λ a b. and_then (parse_channel_arg a) (λ channel.
        and_then (parse_int_arg b)
          (λ duration. ok (calling (pulse_relay (int channel) (int duration))))))
      else if str_eq command "smoke"
      then and_then (shell.parse_pulse_ms args) (λ pulse_ms. ok (smoking pulse_ms))
      else err (validation ("unknown command " <> command))

  -- the branches of `_handle_relay_command`, up to the call of the client
  unfoldable pub relay_work : Shell → String → List String → Result Work
  unfolding plain_call with_none other_work
  relay_work shell command args = elim (plain_call command plain_calls) [
    | some m ↦ with_none command args (calling m)
    | none ↦ other_work shell command args
  ]

-- what the smoke sequence sees of the world: the client's answers after the calls it made
abbrev pub smoke_client : SessionWorld → Trace → ℕ → SmokeRelayClient
smoke_client world t c = record {
  answer = λ calls m. world.call (map (λ (k : Call). called c k) calls ++ t) c m;
}

module _ (world : SessionWorld) where
  unfoldable pub run_smoke : ℕ → ℤ → Act Session Fields
  unfolding run_smoke_sequence smoke_payload
  run_smoke c pulse_ms s =
      let (r, calls) = run_smoke_sequence (smoke_client world s.trace c) (int pulse_ms) [] in
      (smoke_payload r, record s { trace = map (λ (k : Call). called c k) calls ++ s.trace })

  unfoldable pub do_work : ℕ → Work → Act Session Fields
  unfolding call run_smoke
  do_work c (calling m) = call world c m
  do_work c (smoking pulse_ms) = run_smoke c pulse_ms

-- _require_client
unfoldable pub require_client : Act Session ℕ
require_client s = elim s.client [ none ↦ raise (transport "not connected") s | some c ↦ pure c s ]

module _ (world : SessionWorld) (py : Python) (shell : Shell) (dumps : Fields → String) where
  -- _handle_relay_command, with `_print_result`
  unfoldable pub handle_relay_command : String → List String → Act Session (Unit {0})
  unfolding require_client relay_work do_work format_human
  handle_relay_command command args = do
    client ← require_client
    work ← lift (relay_work py shell command args)
    payload ← do_work world client work
    text ← lift (format_human py dumps command payload)
    say text
