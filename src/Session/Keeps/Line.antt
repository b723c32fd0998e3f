-- ===== src/Session/Keeps/Line.antt =====
-- A line keeps what every operation keeps: the session stays aligned whatever the user types and
-- the device answers.
use rp2350_relay_6ch.Prelude.{ℕ, String, false, List, [], ◌∷◌, arith, str_eq, member}
use rp2350_relay_6ch.Errors.{
  Exc, Result, ok, err, validation, timeout, transport, protocol, device, relay, foreign,
}
use rp2350_relay_6ch.Value.{Python, Fields}
use rp2350_relay_6ch.Cli.Format.Results.{format_human}
use rp2350_relay_6ch.Session.World.{SessionWorld, Shell, Words, words, bad_line}
use rp2350_relay_6ch.Session.Commands.{
  Work, calling, smoking, relay_work, run_smoke, do_work, handle_relay_command,
}
use rp2350_relay_6ch.Session.Run.{
  selectors, handle_connect, run_command_line, line_failed, line_done, handle_words, handle_split,
  handle_line,
}
use rp2350_relay_6ch.Session.Keeps.{
  Keeps, pure-Keeps, raise-Keeps, lift-Keeps, if-Keeps, choose-Keeps, state-Keeps, bind-Keeps,
  then-Keeps, run-Keeps,
}
use rp2350_relay_6ch.Session.Keeps.Connect.{say-Keeps, call-Keeps, enter_disconnected-Keeps}
use rp2350_relay_6ch.Session.Keeps.Select.{connect_from_options-Keeps}
use rp2350_relay_6ch.Session.Keeps.Closing.{
  require_client-Keeps, handle_exit-Keeps, handle_disconnect-Keeps, handle_reboot-Keeps,
  handle_bootsel-Keeps,
}

module _ (world : SessionWorld) (py : Python) where
  -- the relay commands
  do_work-Keeps : (c : ℕ) (w : Work) → Keeps (do_work world c w)
  unfolding do_work run_smoke
  do_work-Keeps c (calling m) = call-Keeps world py c m
  do_work-Keeps c (smoking pulse_ms) = record { kept = λ s. (omega arith, λ v. v) }

  -- the whole of a line
  module _ (shell : Shell) (dumps : Fields → String) where
    handle_relay_command-Keeps :
        (command : String) (args : List String)
        → Keeps (handle_relay_command world py shell dumps command args)
    unfolding handle_relay_command
    handle_relay_command-Keeps command args = bind-Keeps _ _ (require_client-Keeps world py) (λ c.
        bind-Keeps _ _ (lift-Keeps (relay_work py shell command args)) (λ w.
          bind-Keeps _ _ (do_work-Keeps c w) (λ payload.
            bind-Keeps _ _ (lift-Keeps (format_human py dumps command payload))
              (λ text. say-Keeps world py text))))

    handle_connect-Keeps : (args : List String) → Keeps (handle_connect world py shell dumps args)
    unfolding handle_connect
    handle_connect-Keeps args = state-Keeps _ (λ s.
        if-Keeps s.connected _ _ (say-Keeps world py _) (
          bind-Keeps _ _ (lift-Keeps (shell.parse_connect args)) (λ parsed.
            bind-Keeps _ _ (lift-Keeps (selectors parsed)) (λ options.
              bind-Keeps _ _ (connect_from_options-Keeps world py options false)
                (λ _. pure-Keeps tt)))))

    run_command_line-Keeps :
        (command : String) (args : List String)
        → Keeps (run_command_line world py shell dumps command args)
    unfolding run_command_line
    run_command_line-Keeps command args =
        choose-Keeps (str_eq command "help") _ _ (say-Keeps world py _) (
          choose-Keeps (str_eq command "connect") _ _ (handle_connect-Keeps args) (
            choose-Keeps (member command ("exit" ∷ "quit" ∷ [])) _ _
              (bind-Keeps _ _ (lift-Keeps (shell.parse_force command args))
                (handle_exit-Keeps world py))
              (choose-Keeps (str_eq command "disconnect") _ _
                (bind-Keeps _ _ (lift-Keeps (shell.parse_force command args))
                  (handle_disconnect-Keeps world py))
                (choose-Keeps (str_eq command "reboot") _ _ (handle_reboot-Keeps world py args) (
                  choose-Keeps (str_eq command "bootsel") _ _ (handle_bootsel-Keeps world py args)
                    (handle_relay_command-Keeps command args))))))

    line_failed-Keeps : (e : Exc) → Keeps (line_failed world py shell dumps e)
    unfolding line_failed
    line_failed-Keeps (validation m) = say-Keeps world py _
    line_failed-Keeps (timeout m) = then-Keeps _ _ (say-Keeps world py _) (pure-Keeps tt)
    line_failed-Keeps (transport m) =
        then-Keeps _ _ (say-Keeps world py _) (enter_disconnected-Keeps world py)
    line_failed-Keeps (protocol m) = then-Keeps _ _ (say-Keeps world py _) (pure-Keeps tt)
    line_failed-Keeps (device group rc m) = then-Keeps _ _ (say-Keeps world py _) (pure-Keeps tt)
    line_failed-Keeps (relay m) = then-Keeps _ _ (say-Keeps world py _) (pure-Keeps tt)
    line_failed-Keeps (foreign m) = raise-Keeps (foreign m)

    line_done-Keeps : (r : Result (Unit {0})) → Keeps (line_done world py shell dumps r)
    line_done-Keeps (ok _) = pure-Keeps tt
    line_done-Keeps (err e) = line_failed-Keeps e

    handle_words-Keeps : (tokens : List String) → Keeps (handle_words world py shell dumps tokens)
    unfolding handle_words
    handle_words-Keeps [] = pure-Keeps tt
    handle_words-Keeps (command ∷ args) = state-Keeps _ (λ s.
        if-Keeps _ _ _ (say-Keeps world py _)
          (run-Keeps _ _ (run_command_line-Keeps command args) line_done-Keeps))

    handle_split-Keeps : (w : Words) → Keeps (handle_split world py shell dumps w)
    unfolding handle_split
    handle_split-Keeps (bad_line m) = say-Keeps world py _
    handle_split-Keeps (words tokens) = handle_words-Keeps tokens

    pub handle_line-Keeps : (text : String) → Keeps (handle_line world py shell dumps text)
    unfolding handle_line
    handle_line-Keeps text = handle_split-Keeps (shell.split text)
