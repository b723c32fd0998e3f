-- ===== src/Session/Failed.antt =====
-- What a session does with a command that fails.
use rp2350_relay_6ch.Prelude.{
  String, Bool, true, false, false≢true, not, ◌&&◌, ◌||◌, ◌≡◌, refl, List, ◌∷◌, member,
  if◌then◌else◌,
}
use rp2350_relay_6ch.Errors.{
  Exc, Result, err, validation, timeout, transport, protocol, device, relay, foreign,
}
use rp2350_relay_6ch.Value.{Python, Fields}
use rp2350_relay_6ch.Session.Text.{format_error}
use rp2350_relay_6ch.Session.World.{Session, SessionWorld, Shell, words, say}
use rp2350_relay_6ch.Session.Run.{
  run_command_line, line_failed, line_done, handle_words, handle_line, offline_commands,
}
use rp2350_relay_6ch.Session.Safety.{Left, enter_disconnected-Left}

abbrev pub Holds : Session → Session → Type 0
Holds s s' = (s'.client ≡ s.client) × (s'.heartbeat ≡ s.heartbeat) × (s'.connected ≡ s.connected)

-- the test of a line's command passes
taken :
    {A : Type 0} (P : A → Type 0) (connected known : Bool) (x y : A)
    → connected || known ≡ true
    → P y
    → P (if not connected && not known then x else y)
taken P true known x y h p = p
taken P false true x y h p = p
taken P false false x y h p = absurd (false≢true h)

module _ (world : SessionWorld) (py : Python) (shell : Shell) (dumps : Fields → String) where
  -- what an exception leaves of the session `s` in which it was raised
  abbrev pub Leaves : Exc → Session → Session → Type 0
  Leaves (transport m) s s' = Left world py s'
  Leaves e s s' = Holds s s'

  line_failed-Leaves : (e : Exc) (s : Session) → Leaves e s (line_failed world py shell dumps e s).1
  unfolding line_failed
  line_failed-Leaves (validation m) s = (refl, refl, refl)
  line_failed-Leaves (timeout m) s = (refl, refl, refl)
  line_failed-Leaves (transport m) s =
      enter_disconnected-Left world py (say (format_error py (transport m)) s).1
  line_failed-Leaves (protocol m) s = (refl, refl, refl)
  line_failed-Leaves (device group rc m) s = (refl, refl, refl)
  line_failed-Leaves (relay m) s = (refl, refl, refl)
  line_failed-Leaves (foreign m) s = (refl, refl, refl)

  done-Leaves :
      (r : Result (Unit {0})) (s : Session) (e : Exc)
      → r ≡ err e
      → Leaves e s (line_done world py shell dumps r s).1
  done-Leaves r s e h = rw h (line_failed-Leaves e s)

  -- When the command of a line fails, a transport error that is no timeout makes the session drop
  -- its connection and its heartbeat; after any other exception it holds what the command left,
  -- a timeout and an error of the device included.
  pub handle_line-Leaves :
      (s : Session) (text command : String) (args : List String) (e : Exc)
      → shell.split text ≡ words (command ∷ args)
      → s.connected || member command offline_commands ≡ true
      → (run_command_line world py shell dumps command args s).0 ≡ err e
      → Leaves e
          (run_command_line world py shell dumps command args s).1
          (handle_line world py shell dumps text s).1
  unfolding handle_line handle_words
  handle_line-Leaves s text command args e split on failed =
      let ran = run_command_line world py shell dumps command args s in
      rw split (
        taken (λ (x : Result (Unit {0}) × Session). Leaves e ran.1 x.1) s.connected
          (member command offline_commands) _ _ on (done-Leaves ran.0 ran.1 e failed))
