-- ===== src/Session/Reboot.antt =====
-- The commands that make the device leave: reboot, with the reconnection after it, and bootsel.
use rp2350_relay_6ch.Prelude.{
  ℕ, zero, suc, String, Bool, true, false, Option, none, some, List, [], ◌∷◌, if◌then◌else◌,
}
use rp2350_relay_6ch.Errors.{Result, ok, err, validation}
use rp2350_relay_6ch.Value.{Python, Fields}
use rp2350_relay_6ch.Client.{Call}
use rp2350_relay_6ch.Discovery.{RelayUsbDevice}
use rp2350_relay_6ch.Daemon.Connect.{is_reboot_reconnect_fresh}
use rp2350_relay_6ch.Action.{Act, pure, lift, gets, swallow, ◌>>=◌, ◌>>◌}
use rp2350_relay_6ch.Session.World.{
  SessionWorld, Session, say, rest, catch_relay, filled, call, close_client, select_serial,
}
use rp2350_relay_6ch.Session.Connect.{
  Probe, probe_connection, adopt_connection, close_current, enter_disconnected,
}
use rp2350_relay_6ch.Session.Commands.{require_client}

-- REBOOT_RECONNECT_ATTEMPTS
abbrev pub reboot_reconnect_attempts : ℕ
reboot_reconnect_attempts = 6

-- `if args: raise RelayValidationError`
abbrev pub no_arguments : String → List String → Result (Unit {0})
no_arguments text [] = ok tt
no_arguments text (a ∷ args) = err (validation text)

module _ (world : SessionWorld) (py : Python) (before : Fields) (serial : String) where
  -- a round of the loop with the probe of the device it found: whether it adopted it
  unfoldable pub adopt_if_later : RelayUsbDevice → Option Probe → Act Session Bool
  unfolding is_reboot_reconnect_fresh adopt_connection close_client
  adopt_if_later d none = rest >> pure false
  adopt_if_later d (some probe) =
      if is_reboot_reconnect_fresh before probe.status
      then adopt_connection world py probe d.port d.serial_number d.product >> pure true
      else swallow (close_client world probe.client) >> rest >> pure false

  unfoldable pub try_device : Option RelayUsbDevice → Act Session Bool
  unfolding probe_connection adopt_if_later
  try_device none = rest >> pure false
  try_device (some d) = probe_connection world py d.port true >>= adopt_if_later d

  -- one round of the `for` loop of `_handle_reboot`
  unfoldable pub reconnect_round : Act Session Bool
  unfolding select_serial try_device
  reconnect_round =
      catch_relay (do d ← select_serial world serial; pure (some d)) (λ _. pure none) >>= try_device

  abbrev pub give_up : Act Session (Unit {0})
  give_up = say "reboot reconnect failed; run 'connect' to reconnect" >> enter_disconnected world py

  -- the loop, and what stands after it
  unfoldable pub reconnect_rounds : ℕ → Act Session (Unit {0})
  unfolding reconnect_round enter_disconnected
  reconnect_rounds zero = give_up
  reconnect_rounds (suc n) =
      reconnect_round >>= λ (adopted : Bool). if adopted then pure tt else reconnect_rounds n

module _ (world : SessionWorld) (py : Python) where
  unfoldable pub reconnect_after : Fields → Option String → Act Session (Unit {0})
  unfolding reconnect_rounds enter_disconnected
  reconnect_after before (some serial) =
      rest >> reconnect_rounds world py before serial reboot_reconnect_attempts
  reconnect_after before none =
      say "reboot closed the connection; run 'connect' to reconnect" >> enter_disconnected world py

  -- _handle_reboot
  unfoldable pub handle_reboot : List String → Act Session (Unit {0})
  unfolding require_client call close_current reconnect_after
  handle_reboot args = do
    lift (no_arguments "reboot takes no arguments" args)
    client ← require_client
    before ← call world client Call.status
    call world client Call.reboot
    say "reboot requested"
    serial ← gets (λ s. s.usb_serial)
    close_current world py true false
    reconnect_after before (filled serial)

  -- _handle_bootsel
  unfoldable pub handle_bootsel : List String → Act Session (Unit {0})
  unfolding require_client call close_current enter_disconnected
  handle_bootsel args = do
    lift (no_arguments "bootsel takes no arguments" args)
    client ← require_client
    call world client Call.bootsel
    say "bootsel requested"
    close_current world py true false
    say "BOOTSEL disconnected; use picotool or UF2"
    enter_disconnected world py
