-- ===== src/Session/Keeps/Closing.antt =====
-- The ways out of a session, and the reboot, keep what every operation keeps.
use rp2350_relay_6ch.Prelude.{
  ℕ, String, Bool, true, false, Option, none, some, List, arith, zero, suc,
}
use rp2350_relay_6ch.Prelude.Int.{ℤ}
use rp2350_relay_6ch.Errors.{Result, ok, err}
use rp2350_relay_6ch.Value.{Python, Fields}
use rp2350_relay_6ch.Client.{Call}
use rp2350_relay_6ch.Discovery.{RelayUsbDevice}
use rp2350_relay_6ch.Daemon.Connect.{is_reboot_reconnect_fresh}
use rp2350_relay_6ch.Session.World.{SessionWorld, rest, filled}
use rp2350_relay_6ch.Session.Connect.{Probe}
use rp2350_relay_6ch.Session.Commands.{require_client}
use rp2350_relay_6ch.Session.Closing.{
  refuse, after_status, read_masks, masks_of, close_allowed, leave, handle_exit, handle_disconnect,
}
use rp2350_relay_6ch.Session.Reboot.{
  no_arguments, adopt_if_later, try_device, reconnect_round, reconnect_rounds, reconnect_after,
  handle_reboot, handle_bootsel, reboot_reconnect_attempts,
}
use rp2350_relay_6ch.Session.Keeps.{
  Keeps, pure-Keeps, lift-Keeps, gets-Keeps, if-Keeps, choose-Keeps, catch_relay-Keeps,
  swallow-Keeps, state-Keeps, bind-Keeps, then-Keeps, run-Keeps,
}
use rp2350_relay_6ch.Session.Keeps.Connect.{
  say-Keeps, call-Keeps, select_serial-Keeps, close_client-Keeps, enter_disconnected-Keeps,
  close_current-Keeps, probe_connection-Keeps, adopt_connection-Keeps,
}

rest-Keeps : Keeps rest
rest-Keeps = record { kept = λ s. (omega arith, λ v. v) }

module _ (world : SessionWorld) (py : Python) where
  pub require_client-Keeps : Keeps require_client
  unfolding require_client
  require_client-Keeps = record { kept = λ s. ground arith }

  -- closing
  refuse-Keeps : (text : String) → Keeps (refuse text)
  refuse-Keeps text =
      then-Keeps _ _ (then-Keeps _ _ (say-Keeps world py text) (say-Keeps world py _))
        (pure-Keeps false)

  after_status-Keeps : (r : Result (ℤ × ℤ)) → Keeps (after_status r)
  after_status-Keeps (ok masks) = choose-Keeps _ _ _ (pure-Keeps true) (refuse-Keeps _)
  after_status-Keeps (err e) = refuse-Keeps _

  read_masks-Keeps : Keeps (read_masks world py)
  unfolding read_masks
  read_masks-Keeps = bind-Keeps _ _ require_client-Keeps (λ c.
      bind-Keeps _ _ (call-Keeps world py c Call.status)
        (λ status. lift-Keeps (masks_of world py status)))

  close_allowed-Keeps : (force : Bool) → Keeps (close_allowed world py force)
  unfolding close_allowed
  close_allowed-Keeps true = pure-Keeps true
  close_allowed-Keeps false =
      run-Keeps (read_masks world py) after_status read_masks-Keeps after_status-Keeps

  leave-Keeps : Keeps (leave world py)
  leave-Keeps = record { kept = λ s. (omega arith, λ v. v) }

  -- An exit, asked for or at the end of the input.
  pub handle_exit-Keeps : (force : Bool) → Keeps (handle_exit world py force)
  unfolding handle_exit
  handle_exit-Keeps force = state-Keeps _ (λ s.
      if-Keeps s.connected _ _
        (bind-Keeps _ _ (close_allowed-Keeps force) (λ b.
          choose-Keeps b _ _ (then-Keeps _ _ (close_current-Keeps world py force true) leave-Keeps)
            (pure-Keeps tt)))
        leave-Keeps)

  pub handle_disconnect-Keeps : (force : Bool) → Keeps (handle_disconnect world py force)
  unfolding handle_disconnect
  handle_disconnect-Keeps force = state-Keeps _ (λ s.
      if-Keeps s.connected _ _
        (bind-Keeps _ _ (close_allowed-Keeps force) (λ b.
          choose-Keeps b _ _
            (then-Keeps _ _ (close_current-Keeps world py force true) (say-Keeps world py _))
            (pure-Keeps tt)))
        (say-Keeps world py _))

  -- reboot and bootsel
  module _ (before : Fields) (serial : String) where
    adopt_if_later-Keeps :
        (d : RelayUsbDevice) (found : Option Probe)
        → Keeps (adopt_if_later world py before serial d found)
    unfolding adopt_if_later
    adopt_if_later-Keeps d none = then-Keeps _ _ rest-Keeps (pure-Keeps false)
    adopt_if_later-Keeps d (some probe) =
        choose-Keeps (is_reboot_reconnect_fresh before probe.status) _ _
          (then-Keeps _ _ (adopt_connection-Keeps world py probe d.port d.serial_number d.product)
            (pure-Keeps true))
          (then-Keeps _ _
            (then-Keeps _ _ (swallow-Keeps _ (close_client-Keeps world py probe.client)) rest-Keeps)
            (pure-Keeps false))

    try_device-Keeps :
        (found : Option RelayUsbDevice) → Keeps (try_device world py before serial found)
    unfolding try_device
    try_device-Keeps none = then-Keeps _ _ rest-Keeps (pure-Keeps false)
    try_device-Keeps (some d) =
        bind-Keeps _ _ (probe_connection-Keeps world py d.port true) (adopt_if_later-Keeps d)

    reconnect_round-Keeps : Keeps (reconnect_round world py before serial)
    unfolding reconnect_round
    reconnect_round-Keeps =
        bind-Keeps _ _
          (catch_relay-Keeps _ _
            (bind-Keeps _ _ (select_serial-Keeps world py serial) (λ d. pure-Keeps _))
            (λ _. pure-Keeps none))
          try_device-Keeps

    reconnect_rounds-Keeps : (n : ℕ) → Keeps (reconnect_rounds world py before serial n)
    unfolding reconnect_rounds
    reconnect_rounds-Keeps zero =
        then-Keeps _ _ (say-Keeps world py _) (enter_disconnected-Keeps world py)
    reconnect_rounds-Keeps (suc n) =
        bind-Keeps _ _ reconnect_round-Keeps
          (λ b. choose-Keeps b _ _ (pure-Keeps tt) (reconnect_rounds-Keeps n))

  reconnect_after-Keeps :
      (before : Fields) (serial : Option String) → Keeps (reconnect_after world py before serial)
  unfolding reconnect_after
  reconnect_after-Keeps before none =
      then-Keeps _ _ (say-Keeps world py _) (enter_disconnected-Keeps world py)
  reconnect_after-Keeps before (some serial) =
      then-Keeps _ _ rest-Keeps (reconnect_rounds-Keeps before serial reboot_reconnect_attempts)

  pub handle_reboot-Keeps : (args : List String) → Keeps (handle_reboot world py args)
  unfolding handle_reboot
  handle_reboot-Keeps args =
      bind-Keeps _ _ (lift-Keeps (no_arguments "reboot takes no arguments" args)) (λ _.
        bind-Keeps _ _ require_client-Keeps (λ c.
          bind-Keeps _ _ (call-Keeps world py c Call.status) (λ before.
            bind-Keeps _ _ (call-Keeps world py c Call.reboot) (λ _.
              bind-Keeps _ _ (say-Keeps world py _) (λ _.
                bind-Keeps _ _ (gets-Keeps (λ s. s.usb_serial)) (λ serial.
                  bind-Keeps _ _ (close_current-Keeps world py true false)
                    (λ _. reconnect_after-Keeps before (filled serial))))))))

  pub handle_bootsel-Keeps : (args : List String) → Keeps (handle_bootsel world py args)
  unfolding handle_bootsel
  handle_bootsel-Keeps args =
      bind-Keeps _ _ (lift-Keeps (no_arguments "bootsel takes no arguments" args)) (λ _.
        bind-Keeps _ _ require_client-Keeps (λ c.
          then-Keeps _ _ (call-Keeps world py c Call.bootsel) (
            then-Keeps _ _ (say-Keeps world py _) (
              then-Keeps _ _ (close_current-Keeps world py true false)
                (then-Keeps _ _ (say-Keeps world py _) (enter_disconnected-Keeps world py))))))
