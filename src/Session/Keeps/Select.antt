-- ===== src/Session/Keeps/Select.antt =====
-- Finding and connecting to a device keeps what every operation keeps.
use rp2350_relay_6ch.Prelude.{
  ◌≤◌, String, Bool, true, false, Option, none, some, List, [], ◌∷◌, length, suc, arith,
}
use rp2350_relay_6ch.Value.{Python}
use rp2350_relay_6ch.Discovery.{RelayUsbDevice}
use rp2350_relay_6ch.Action.{Act}
use rp2350_relay_6ch.Session.World.{
  Session, SessionWorld, SessionOptions, Trace, Input, line, interrupt, end_of_file, filled,
}
use rp2350_relay_6ch.Session.Connect.{serial_of, product_of}
use rp2350_relay_6ch.Session.Select.{
  follow, ConnectResult, connected, prefer, Selection, nothing, stopped, broken_off, chosen,
  Verdict, cancel, pick, again, verdict, choose_device, ask_device, select_among,
  select_interactive_device, open_device, open_selected, connect_selected, open_named, announce,
  connect_port, open_found, find_serial, connect_serial, connect_preferred_port,
  connect_preferred_serial, connect_preferred, connect_again, connect_by, connect_from_options,
}
use rp2350_relay_6ch.Session.Keeps.{
  Keeps, pure-Keeps, raise-Keeps, choose-Keeps, catch_relay-Keeps, state-Keeps, bind-Keeps,
  then-Keeps,
}
use rp2350_relay_6ch.Session.Keeps.Connect.{
  say-Keeps, discover-Keeps, select_serial-Keeps, open_port-Keeps, metadata_for_port-Keeps,
  print_devices-Keeps, print_available_devices-Keeps,
}

prefer-Keeps : (port serial : Option String) → Keeps (prefer port serial)
prefer-Keeps port serial = record { kept = λ s. (omega arith, λ v. v) }

follow-takes :
    (v : Verdict) (go_on : String → Selection × List Input × Trace) (input : List Input) (t : Trace)
    → ((m : String) → length (go_on m).1 ≤ length input)
    → length (follow v go_on input t).1 ≤ suc (length input)
unfolding follow
follow-takes cancel go_on input t h = omega arith
follow-takes (pick d) go_on input t h = omega arith
follow-takes (again m) go_on input t h = omega (arith, h m)

module _ (world : SessionWorld) (py : Python) where
  -- the loop that asks takes from what the user types
  choose_device-takes :
      (devices : List RelayUsbDevice) (input : List Input) (t : Trace)
      → length (choose_device world py devices input t).1 ≤ length input
  unfolding choose_device
  choose_device-takes devices [] t = omega arith
  choose_device-takes devices (interrupt ∷ input) t = omega arith
  choose_device-takes devices (end_of_file ∷ input) t = omega arith
  choose_device-takes devices (line text ∷ input) t =
      follow-takes (verdict world py devices (py.strip text)) _ input _
        (λ m. choose_device-takes devices input _)

  ask_device-Keeps : (devices : List RelayUsbDevice) → Keeps (ask_device world py devices)
  unfolding ask_device
  ask_device-Keeps devices = record {
    kept = λ s. (choose_device-takes devices s.input s.trace, λ v. v);
  }

  select_among-Keeps : (devices : List RelayUsbDevice) → Keeps (select_among world py devices)
  unfolding select_among
  select_among-Keeps [] = then-Keeps _ _ (say-Keeps world py _) (pure-Keeps nothing)
  select_among-Keeps (d ∷ devices) =
      then-Keeps _ _ (print_devices-Keeps world py (d ∷ devices)) (ask_device-Keeps (d ∷ devices))

  select_interactive_device-Keeps : Keeps (select_interactive_device world py)
  unfolding select_interactive_device
  select_interactive_device-Keeps = bind-Keeps _ _ (discover-Keeps world py) select_among-Keeps

  open_device-Keeps : (d : RelayUsbDevice) → Keeps (open_device world py d)
  unfolding open_device
  open_device-Keeps d =
      bind-Keeps _ _ (open_port-Keeps world py d.port d.serial_number d.product) (λ b. pure-Keeps _)

  open_selected-Keeps : (initial : Bool) (c : Selection) → Keeps (open_selected world py initial c)
  unfolding open_selected
  open_selected-Keeps initial nothing = pure-Keeps _
  open_selected-Keeps initial stopped = pure-Keeps _
  open_selected-Keeps initial broken_off = raise-Keeps _
  open_selected-Keeps initial (chosen d) = open_device-Keeps d

  connect_selected-Keeps : (initial : Bool) → Keeps (connect_selected world py initial)
  unfolding connect_selected
  connect_selected-Keeps initial =
      bind-Keeps _ _
        (catch_relay-Keeps _ _ select_interactive_device-Keeps
          (λ e. then-Keeps _ _ (say-Keeps world py _) (pure-Keeps nothing)))
        (open_selected-Keeps initial)

  open_named-Keeps : (port : String) → Keeps (open_named world py port)
  unfolding open_named
  open_named-Keeps port =
      bind-Keeps _ _ (metadata_for_port-Keeps world py port)
        (λ d. open_port-Keeps world py port (serial_of d) (product_of d))

  announce-Keeps : (initial : Bool) → Keeps (announce world py initial)
  announce-Keeps initial =
      then-Keeps _ _
        (choose-Keeps initial _ _ (print_available_devices-Keeps world py) (pure-Keeps tt))
        (pure-Keeps _)

  connect_port-Keeps : (initial : Bool) (port : String) → Keeps (connect_port world py initial port)
  unfolding connect_port
  connect_port-Keeps initial port =
      then-Keeps (prefer (some port) none) _ (prefer-Keeps (some port) none) (
        bind-Keeps _ _ (open_named-Keeps port)
          (λ b. choose-Keeps b _ _ (pure-Keeps connected) (announce-Keeps initial)))

  open_found-Keeps :
      (d : Option RelayUsbDevice) (k : Act Session ConnectResult)
      → Keeps k
      → Keeps (open_found world py d k)
  unfolding open_found
  open_found-Keeps none k p = p
  open_found-Keeps (some d) k p = open_device-Keeps d

  find_serial-Keeps : (serial : String) → Keeps (find_serial world py serial)
  unfolding find_serial
  find_serial-Keeps serial =
      catch_relay-Keeps _ _
        (bind-Keeps _ _ (select_serial-Keeps world py serial) (λ d. pure-Keeps _))
        (λ e. then-Keeps _ _ (say-Keeps world py _) (pure-Keeps none))

  connect_serial-Keeps :
      (initial : Bool) (serial : String) → Keeps (connect_serial world py initial serial)
  unfolding connect_serial
  connect_serial-Keeps initial serial =
      then-Keeps (prefer none (some serial)) _ (prefer-Keeps none (some serial)) (
        bind-Keeps _ _ (find_serial-Keeps serial)
          (λ d. open_found-Keeps d _ (announce-Keeps initial)))

  connect_preferred-Keeps :
      (port serial : Option String) → Keeps (connect_preferred world py port serial)
  unfolding connect_preferred connect_preferred_port connect_preferred_serial
  connect_preferred-Keeps (some port) serial =
      bind-Keeps _ _ (open_named-Keeps port)
        (λ b. choose-Keeps b _ _ (pure-Keeps connected) (connect_selected-Keeps false))
  connect_preferred-Keeps none (some serial) =
      bind-Keeps _ _ (find_serial-Keeps serial)
        (λ d. open_found-Keeps d _ (connect_selected-Keeps false))
  connect_preferred-Keeps none none = connect_selected-Keeps false

  connect_again-Keeps : (initial : Bool) → Keeps (connect_again world py initial)
  unfolding connect_again
  connect_again-Keeps true = connect_selected-Keeps true
  connect_again-Keeps false =
      state-Keeps _
        (λ s. connect_preferred-Keeps (filled s.preferred_port) (filled s.preferred_serial))

  connect_by-Keeps :
      (initial : Bool) (port serial : Option String)
      → Keeps (connect_by world py initial port serial)
  unfolding connect_by
  connect_by-Keeps initial (some port) serial = connect_port-Keeps initial port
  connect_by-Keeps initial none (some serial) = connect_serial-Keeps initial serial
  connect_by-Keeps initial none none = connect_again-Keeps initial

  pub connect_from_options-Keeps :
      (options : SessionOptions) (initial : Bool)
      → Keeps (connect_from_options world py options initial)
  unfolding connect_from_options
  connect_from_options-Keeps options initial =
      connect_by-Keeps initial (filled options.port) (filled options.serial)
