-- ===== src/Session/Run.antt =====
-- A session's loop: the line that the user typed, and what is done with it.
use rp2350_relay_6ch.Prelude.{
  ℕ, zero, suc, String, Bool, true, false, ◌<>◌, ◌&&◌, not, Option, none, some, List, [], ◌∷◌,
  member, str_eq, if◌then◌else◌,
}
use rp2350_relay_6ch.Errors.{
  Exc, Result, ok, err, validation, is_relay_error, is_transport_error, is_timeout_error,
}
use rp2350_relay_6ch.Value.{Python, Fields}
use rp2350_relay_6ch.Action.{Act, pure, raise, lift, ◌>>=◌, ◌>>◌}
use rp2350_relay_6ch.Session.Text.{format_error, format_prompt}
use rp2350_relay_6ch.Session.World.{
  prompted, SessionWorld, Shell, Words, words, bad_line, Input, line, interrupt, end_of_file,
  SessionOptions, Session, note, say, filled,
}
use rp2350_relay_6ch.Session.Connect.{enter_disconnected}
use rp2350_relay_6ch.Session.Select.{
  ConnectResult, connected, failed, cancelled, connect_from_options,
}
use rp2350_relay_6ch.Session.Commands.{handle_relay_command}
use rp2350_relay_6ch.Session.Closing.{handle_exit, handle_disconnect}
use rp2350_relay_6ch.Session.Reboot.{handle_reboot, handle_bootsel}
use rp2350_relay_6ch.Session.Help.{help_text}

-- what `_read_input` gives: a line, KeyboardInterrupt or EOFError
pub data Turn : Type 0 where
  typed : String → Turn
  interrupted ended : Turn

abbrev pub turn_of : Input → Turn
turn_of (line text) = typed text
turn_of interrupt = interrupted
turn_of end_of_file = ended

-- _prompt
unfoldable pub prompt : Bool → Session → String
unfolding format_prompt
prompt color s =
    format_prompt
      (if s.connected then elim s.port [ none ↦ "None" | some p ↦ p ] else "disconnected") color

-- _read_input
unfoldable pub read_input : String → Act Session Turn
read_input text s = elim s.input [
  | [] ↦ (ok ended, note (prompted text) s)
  | i ∷ input ↦ (ok (turn_of i), note (prompted text) (record s { input = input }))
]

-- two selectors exclude each other
abbrev pub selectors : Option String × Option String → Result SessionOptions
selectors parsed = elim (filled parsed.0) [
  | none ↦ ok (record { port = parsed.0; serial = parsed.1 })
  | some p ↦ elim (filled parsed.1) [
    | none ↦ ok (record { port = parsed.0; serial = parsed.1 })
    | some s ↦ err (validation "--port and --serial are mutually exclusive")
  ]
]

-- the commands of a session that is not connected
abbrev pub offline_commands : List String
offline_commands = "connect" ∷ "help" ∷ "exit" ∷ "quit" ∷ []

module _ (world : SessionWorld) (py : Python) (shell : Shell) (dumps : Fields → String) where
  -- _handle_connect
  unfoldable pub handle_connect : List String → Act Session (Unit {0})
  unfolding connect_from_options
  handle_connect args s =
      if s.connected
      then say "already connected: run 'disconnect' first" s
      else (do
        parsed ← lift (shell.parse_connect args)
        options ← lift (selectors parsed)
        connect_from_options world py options false
        pure tt)
          s

  -- the `try` block of `handle_line`
  unfoldable pub run_command_line : String → List String → Act Session (Unit {0})
  unfolding help_text handle_connect handle_exit handle_disconnect handle_reboot handle_bootsel
      handle_relay_command
  run_command_line command args =
      if str_eq command "help"
      then say help_text
      else if str_eq command "connect"
      then handle_connect args
      else if member command ("exit" ∷ "quit" ∷ [])
      then lift (shell.parse_force command args) >>= handle_exit world py
      else if str_eq command "disconnect"
      then lift (shell.parse_force command args) >>= handle_disconnect world py
      else if str_eq command "reboot"
      then handle_reboot world py args
      else if str_eq command "bootsel"
      then handle_bootsel world py args
      else handle_relay_command world py shell dumps command args

  -- the `except` clauses of `handle_line`
  unfoldable pub line_failed : Exc → Act Session (Unit {0})
  unfolding format_error enter_disconnected
  line_failed (validation m) = say ("argument error: " <> m)
  line_failed e =
      if is_relay_error e
      then say (format_error py e)
        >> (if is_transport_error e && not (is_timeout_error e)
            then enter_disconnected world py
            else pure tt)
      else raise e

  abbrev pub line_done : Result (Unit {0}) → Act Session (Unit {0})
  line_done (ok _) = pure tt
  line_done (err e) = line_failed e

  unfoldable pub handle_words : List String → Act Session (Unit {0})
  unfolding run_command_line line_failed
  handle_words [] s = pure tt s
  handle_words (command ∷ args) s =
      if not s.connected && not (member command offline_commands)
      then say "not connected: run 'connect' first" s
      else let (r, s') = run_command_line command args s in line_done r s'

  -- `handle_line`, once the line is split
  unfoldable pub handle_split : Words → Act Session (Unit {0})
  unfolding handle_words
  handle_split (bad_line m) = say ("argument error: " <> m)
  handle_split (words tokens) = handle_words tokens

  -- handle_line
  unfoldable pub handle_line : String → Act Session (Unit {0})
  unfolding handle_split
  handle_line text = handle_split (shell.split text)

  -- a turn of the loop of `run`: whether it goes on
  unfoldable pub take_turn : Turn → Act Session Bool
  unfolding handle_line handle_exit
  take_turn (typed text) = handle_line text >> pure true
  take_turn interrupted = say "^C" >> pure true
  take_turn ended = handle_exit world py false >> pure false

  -- the body of the loop of `run`
  unfoldable pub turn : Act Session Bool
  unfolding read_input prompt take_turn
  turn s = (read_input (prompt shell.color s) >>= take_turn) s

  -- The `while` loop of `run`, with fuel for the turns. It returns whether it came to its end.
  unfoldable pub run_loop : ℕ → Act Session Bool
  unfolding turn
  run_loop zero s = (ok s.should_exit, s)
  run_loop (suc n) s =
      if s.should_exit
      then (ok true, s)
      else (turn >>= λ (goes_on : Bool). if goes_on then run_loop n else pure true) s

  -- what `run` does once it tried to connect
  unfoldable pub started : ℕ → ConnectResult → Act Session Bool
  unfolding run_loop
  started fuel cancelled = pure true
  started fuel failed =
      say "disconnected: run 'connect' to select a relay controller" >> run_loop fuel
  started fuel connected = run_loop fuel

  -- run: the exit status of a session that ends is 0
  unfoldable pub run : SessionOptions → ℕ → Act Session Bool
  unfolding connect_from_options started
  run options fuel = connect_from_options world py options true >>= started fuel
