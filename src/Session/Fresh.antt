-- ===== src/Session/Fresh.antt =====
-- The connection that a session takes after it rebooted the device.
use rp2350_relay_6ch.Prelude.{ℕ, ◌≡◌, inl, String, true, false, Option, none, [], some, ◌∷◌, arith}
use rp2350_relay_6ch.Errors.{Result, ok, err}
use rp2350_relay_6ch.Value.{Python, Fields}
use rp2350_relay_6ch.Client.{Call}
use rp2350_relay_6ch.Action.{Act, gets, continue, ◌>>=◌, ◌>>◌}
use rp2350_relay_6ch.Session.World.{Session, SessionWorld, called, say, filled, call}
use rp2350_relay_6ch.Session.Connect.{enter_disconnected, close_current}
use rp2350_relay_6ch.Session.Commands.{require_client}
use rp2350_relay_6ch.Session.Reboot.{reconnect_after, handle_reboot}
use rp2350_relay_6ch.Session.Probed.{enter_disconnected-IsOut}
use rp2350_relay_6ch.Session.Round.{EndsFresh, reconnect_after-EndsFresh}

module _ (world : SessionWorld) (py : Python) where
  abbrev reconnecting : Fields → Act Session (Unit {0})
  reconnecting before = gets (λ s. s.usb_serial) >>= λ serial.
      close_current world py true false >> reconnect_after world py before (filled serial)

  closed-EndsFresh :
      (before : Fields) (serial : Option String) (r : Result (Unit {0})) (s : Session)
      → s.client ≡ none
      → EndsFresh world py before (continue r (λ _. reconnect_after world py before serial) s).1
  closed-EndsFresh before serial (ok _) s h = reconnect_after-EndsFresh world py before serial s h
  closed-EndsFresh before serial (err e) s h = inl h

  reconnecting-EndsFresh :
      (before : Fields) (s : Session) → EndsFresh world py before (reconnecting before s).1
  unfolding close_current
  reconnecting-EndsFresh before s =
      let closed = enter_disconnected world py s in
      closed-EndsFresh before (filled s.usb_serial) closed.0 closed.1
        (enter_disconnected-IsOut world py s)

  requested-EndsFresh :
      (before : Fields) (r : Result Fields) (s : Session) (answer : Fields)
      → r ≡ ok answer
      → EndsFresh world py before
          (continue r (λ _. say "reboot requested" >> reconnecting before) s).1
  requested-EndsFresh before (ok a) s answer e =
      reconnecting-EndsFresh before (say "reboot requested" s).1
  requested-EndsFresh before (err e) s answer k = absurd (ground (arith, k))

  answered-EndsFresh :
      (c : ℕ) (before : Fields) (r : Result Fields) (s : Session) (answer : Fields)
      → r ≡ ok before
      → world.call s.trace c Call.reboot ≡ ok answer
      → EndsFresh world py before
          (continue r
            (λ status. call world c Call.reboot >> (say "reboot requested" >> reconnecting status))
            s).1
  unfolding call
  answered-EndsFresh c before r s answer e k =
      rw e (requested-EndsFresh before (world.call s.trace c Call.reboot) _ answer k)

  -- When a session reboots its device and the device answers, the session ends without a client, or
  -- with one that it took for an answer to `status` whose uptime is below that of before the
  -- reboot, or where one of the two has no uptime.
  pub handle_reboot-EndsFresh :
      (s : Session) (c : ℕ) (before answer : Fields)
      → world.call s.trace c Call.status ≡ ok before
      → world.call (called c Call.status ∷ s.trace) c Call.reboot ≡ ok answer
      → EndsFresh world py before (handle_reboot world py [] (record s { client = some c })).1
  unfolding handle_reboot require_client call
  handle_reboot-EndsFresh s c before answer e k =
      answered-EndsFresh c before (world.call s.trace c Call.status)
        (record s { client = some c; trace = called c Call.status ∷ s.trace }) answer e k
