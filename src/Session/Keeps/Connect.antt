-- ===== src/Session/Keeps/Connect.antt =====
-- Opening and dropping a connection keeps what every operation keeps.
use rp2350_relay_6ch.Prelude.{
  ℕ, refl, String, Bool, true, false, Option, none, some, List, [], ◌∷◌, ◌&&◌, arith,
}
use rp2350_relay_6ch.Errors.{Exc, Result, ok, err, is_relay_error}
use rp2350_relay_6ch.Value.{Python, Fields}
use rp2350_relay_6ch.Client.{Call}
use rp2350_relay_6ch.Cli.Format.{mask_of}
use rp2350_relay_6ch.Discovery.{RelayUsbDevice}
use rp2350_relay_6ch.Session.World.{
  Session, SessionWorld, say, heartbeat_started, open_client, call, close_client, discover,
  select_serial,
}
use rp2350_relay_6ch.Session.Connect.{
  Probe, stop_heartbeat, start_heartbeat, close_held, enter_disconnected, close_current,
  probe_opened, complain, after_open, probe_connection, print_banner, adopt_connection,
  adopt_or_drop, open_port, metadata_for_port, print_each, print_devices, print_if_any,
  print_available_devices,
}
use rp2350_relay_6ch.Session.Keeps.{
  Keeps, Moves-trans, pure-Keeps, lift-Keeps, raise-Keeps, if-Keeps, choose-Keeps,
  catch_relay-Keeps, state-Keeps, gets-Keeps, bind-Keeps, then-Keeps, run-Keeps, swallow-Keeps,
}

module _ (world : SessionWorld) (py : Python) where
  pub open_client-Keeps : (port : String) → Keeps (open_client world port)
  unfolding open_client
  open_client-Keeps port = record { kept = λ s. (omega arith, λ v. v) }

  pub call-Keeps : (c : ℕ) (m : Call) → Keeps (call world c m)
  unfolding call
  call-Keeps c m = record { kept = λ s. (omega arith, λ v. v) }

  pub close_client-Keeps : (c : ℕ) → Keeps (close_client world c)
  unfolding close_client
  close_client-Keeps c = record { kept = λ s. (omega arith, λ v. v) }

  pub discover-Keeps : Keeps (discover world)
  unfolding discover
  discover-Keeps = record { kept = λ s. (omega arith, λ v. v) }

  pub select_serial-Keeps : (serial : String) → Keeps (select_serial world serial)
  unfolding select_serial
  select_serial-Keeps serial = record { kept = λ s. (omega arith, λ v. v) }

  close_held-Keeps : (c : Option ℕ) → Keeps (close_held world py c)
  unfolding close_held
  close_held-Keeps none = pure-Keeps tt
  close_held-Keeps (some c) = close_client-Keeps c

  pub enter_disconnected-Keeps : Keeps (enter_disconnected world py)
  unfolding enter_disconnected stop_heartbeat close_held close_client
  enter_disconnected-Keeps = record { kept = λ s. ground arith }

  pub say-Keeps : (text : String) → Keeps (say text)
  say-Keeps text = record { kept = λ s. (omega arith, λ v. v) }

  pub close_current-Keeps : (force warn : Bool) → Keeps (close_current world py force warn)
  unfolding close_current
  close_current-Keeps force warn =
      bind-Keeps _ _ (choose-Keeps (force && warn) _ _ (say-Keeps _) (pure-Keeps tt))
        (λ _. enter_disconnected-Keeps)

  probe_opened-Keeps : (c : ℕ) → Keeps (probe_opened world py c)
  unfolding probe_opened
  probe_opened-Keeps c = bind-Keeps _ _ (call-Keeps c Call.identity) (λ d.
      bind-Keeps _ _ (lift-Keeps _)
        (λ _. bind-Keeps _ _ (call-Keeps c Call.status) (λ _. pure-Keeps _)))

  complain-Keeps : (quiet : Bool) (e : Exc) → Keeps (complain world py quiet e)
  complain-Keeps quiet e = choose-Keeps quiet _ _ (pure-Keeps tt) (say-Keeps _)

  after_open-Keeps : (quiet : Bool) (r : Result ℕ) → Keeps (after_open world py quiet r)
  unfolding after_open
  after_open-Keeps quiet (ok c) = catch_relay-Keeps _ _ (probe_opened-Keeps c) (λ e.
      then-Keeps _ _
        (then-Keeps _ _ (complain-Keeps quiet e) (swallow-Keeps _ (close_client-Keeps c)))
        (pure-Keeps none))
  after_open-Keeps quiet (err e) =
      choose-Keeps (is_relay_error e) _ _
        (then-Keeps _ _ (complain-Keeps quiet e) (pure-Keeps none)) (raise-Keeps e)

  pub probe_connection-Keeps :
      (port : String) (quiet : Bool) → Keeps (probe_connection world py port quiet)
  unfolding probe_connection
  probe_connection-Keeps port quiet =
      run-Keeps _ _ (open_client-Keeps port) (after_open-Keeps quiet)

  print_banner-Keeps : (identity status : Fields) → Keeps (print_banner world py identity status)
  unfolding print_banner
  print_banner-Keeps identity status = bind-Keeps _ _ (lift-Keeps (mask_of py "state" status)) (λ _.
      bind-Keeps _ _ (lift-Keeps (mask_of py "pulsing" status))
        (λ _. bind-Keeps _ _ (gets-Keeps (λ s. s)) (λ s. say-Keeps _)))

  pub adopt_connection-Keeps :
      (probe : Probe) (port : String) (serial product : Option String)
      → Keeps (adopt_connection world py probe port serial product)
  unfolding adopt_connection start_heartbeat
  adopt_connection-Keeps probe port serial product = record {
    kept = λ s.
        let s' : Session = record s {
          client = some probe.client;
          heartbeat = some probe.client;
          connected = true;
          port = some port;
          usb_serial = serial;
          product = product;
          trace = heartbeat_started probe.client ∷ s.trace;
        } in
        Moves-trans s s' (print_banner world py probe.identity probe.status s').1
          (omega arith, λ v. (refl, refl))
          ((print_banner-Keeps probe.identity probe.status).kept s');
  }

  adopt_or_drop-Keeps :
      (port : String) (serial product : Option String) (found : Option Probe)
      → Keeps (adopt_or_drop world py port serial product found)
  unfolding adopt_or_drop
  adopt_or_drop-Keeps port serial product none =
      then-Keeps _ _ enter_disconnected-Keeps (pure-Keeps false)
  adopt_or_drop-Keeps port serial product (some probe) =
      then-Keeps _ _ (adopt_connection-Keeps probe port serial product) (pure-Keeps true)

  pub open_port-Keeps :
      (port : String) (serial product : Option String)
      → Keeps (open_port world py port serial product)
  unfolding open_port
  open_port-Keeps port serial product = state-Keeps _ (λ s.
      if-Keeps s.connected _ _ (then-Keeps _ _ (say-Keeps _) (pure-Keeps true)) (
        bind-Keeps _ _ (probe_connection-Keeps port false)
          (adopt_or_drop-Keeps port serial product)))

  pub metadata_for_port-Keeps : (port : String) → Keeps (metadata_for_port world py port)
  unfolding metadata_for_port
  metadata_for_port-Keeps port =
      catch_relay-Keeps _ _ (bind-Keeps _ _ discover-Keeps (λ d. pure-Keeps _))
        (λ _. pure-Keeps none)

  print_each-Keeps : (n : ℕ) (devices : List RelayUsbDevice) → Keeps (print_each world py n devices)
  unfolding print_each
  print_each-Keeps n [] = pure-Keeps tt
  print_each-Keeps n (d ∷ devices) = then-Keeps _ _ (say-Keeps _) (print_each-Keeps _ devices)

  pub print_devices-Keeps : (devices : List RelayUsbDevice) → Keeps (print_devices world py devices)
  unfolding print_devices
  print_devices-Keeps devices = then-Keeps _ _ (say-Keeps _) (print_each-Keeps 1 devices)

  print_if_any-Keeps : (devices : List RelayUsbDevice) → Keeps (print_if_any world py devices)
  unfolding print_if_any
  print_if_any-Keeps [] = pure-Keeps tt
  print_if_any-Keeps (d ∷ devices) = print_devices-Keeps (d ∷ devices)

  pub print_available_devices-Keeps : Keeps (print_available_devices world py)
  unfolding print_available_devices
  print_available_devices-Keeps =
      catch_relay-Keeps _ _ (bind-Keeps _ _ discover-Keeps print_if_any-Keeps) (λ _. say-Keeps _)
