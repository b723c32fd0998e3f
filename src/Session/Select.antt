-- ===== src/Session/Select.antt =====
-- How a session finds the device to connect to: by the options, by what it was connected to
-- before, or by asking the user.
use rp2350_relay_6ch.Prelude.{
  suc, String, Bool, true, false, ◌<>◌, Option, none, some, List, [], ◌∷◌, length, get_elem?,
  member, if◌then◌else◌,
}
use rp2350_relay_6ch.Prelude.Int.{ℤ, pos}
use rp2350_relay_6ch.Errors.{ok, foreign}
use rp2350_relay_6ch.Value.{Python}
use rp2350_relay_6ch.Discovery.{RelayUsbDevice}
use rp2350_relay_6ch.Action.{Act, pure, raise, modify, ◌>>=◌, ◌>>◌}
use rp2350_relay_6ch.Session.Text.{labelled}
use rp2350_relay_6ch.Session.World.{
  printed, prompted, Trace, SessionWorld, Session, SessionOptions, Input, line, interrupt,
  end_of_file, say, catch_relay, filled, discover, select_serial,
}
use rp2350_relay_6ch.Session.Connect.{
  serial_of, product_of, open_port, metadata_for_port, print_devices, print_available_devices,
}

-- _ConnectResult
pub data ConnectResult : Type 0 where
  connected failed cancelled : ConnectResult

-- what the user chose: no device, _SELECTION_CANCELLED, or a device; Ctrl-C is not caught
pub data Selection : Type 0 where
  nothing stopped broken_off : Selection
  chosen : RelayUsbDevice → Selection

-- what `_select_interactive_device` makes of an answer
pub data Verdict : Type 0 where
  cancel : Verdict
  pick : RelayUsbDevice → Verdict
  again : String → Verdict

-- what a verdict leads to; after `again` the loop goes on
unfoldable pub follow :
    Verdict
    → (String → Selection × List Input × Trace)
    → List Input
    → Trace
    → Selection × List Input × Trace
follow cancel go_on input t = (stopped, input, t)
follow (pick d) go_on input t = (chosen d, input, t)
follow (again m) go_on input t = go_on m

-- the selector to come back to
abbrev pub prefer : Option String → Option String → Act Session (Unit {0})
prefer port serial = modify (λ s. record s { preferred_port = port; preferred_serial = serial })

module _ (world : SessionWorld) (py : Python) where
  -- `1 <= index <= len(devices)`
  unfoldable pub verdict_of_number : List RelayUsbDevice → Option ℤ → Verdict
  verdict_of_number devices (some (pos (suc k))) = elim (get_elem? devices k) [
    | none ↦ again ("argument error: selection must be 1.." <> py.show_int (pos (length devices)))
    | some d ↦ pick d
  ]
  verdict_of_number devices none = again "argument error: selection must be a number"
  verdict_of_number devices _ =
      again ("argument error: selection must be 1.." <> py.show_int (pos (length devices)))

  unfoldable pub verdict : List RelayUsbDevice → String → Verdict
  unfolding verdict_of_number
  verdict devices choice =
      if member (py.lower choice) ("q" ∷ "quit" ∷ "cancel" ∷ [])
      then cancel
      else verdict_of_number devices (py.int_of_decimal choice)

  -- the `while` loop of `_select_interactive_device`, over what the user types
  unfoldable pub choose_device :
      List RelayUsbDevice → List Input → Trace → Selection × List Input × Trace
  unfolding verdict follow
  choose_device devices [] t = (stopped, [], prompted "Select device number, or q to cancel: " ∷ t)
  choose_device devices (interrupt ∷ input) t =
      (broken_off, input, prompted "Select device number, or q to cancel: " ∷ t)
  choose_device devices (end_of_file ∷ input) t =
      (stopped, input, prompted "Select device number, or q to cancel: " ∷ t)
  choose_device devices (line text ∷ input) t =
      let t' = prompted "Select device number, or q to cancel: " ∷ t in
      follow (verdict devices (py.strip text)) (λ m. choose_device devices input (printed m ∷ t'))
        input t'

  unfoldable pub ask_device : List RelayUsbDevice → Act Session Selection
  unfolding choose_device
  ask_device devices s =
      let (selection, input, trace) = choose_device devices s.input s.trace in
      (ok selection, record s { input = input; trace = trace })

  unfoldable pub select_among : List RelayUsbDevice → Act Session Selection
  unfolding ask_device print_devices
  select_among [] = say "transport error: no relay USB serial devices found" >> pure nothing
  select_among (d ∷ devices) = print_devices world py (d ∷ devices) >> ask_device (d ∷ devices)

  -- _select_interactive_device
  unfoldable pub select_interactive_device : Act Session Selection
  unfolding discover select_among
  select_interactive_device = discover world >>= select_among

  abbrev pub result_of : Bool → ConnectResult
  result_of true = connected
  result_of false = failed

  unfoldable pub open_device : RelayUsbDevice → Act Session ConnectResult
  unfolding open_port
  open_device d = do
    opened ← open_port world py d.port d.serial_number d.product
    pure (result_of opened)

  unfoldable pub open_selected : Bool → Selection → Act Session ConnectResult
  unfolding open_device
  open_selected initial nothing = pure failed
  open_selected initial stopped = pure (if initial then cancelled else failed)
  open_selected initial broken_off = raise (foreign "KeyboardInterrupt")
  open_selected initial (chosen d) = open_device d

  -- the end of `_connect_from_options`; only the selection stands in its `try` block
  unfoldable pub connect_selected : Bool → Act Session ConnectResult
  unfolding select_interactive_device open_selected
  connect_selected initial =
      catch_relay select_interactive_device (λ e. say (labelled e) >> pure nothing)
      >>= open_selected initial

  -- `self._open(port, usb_serial=…, product=…)` with what the discovery knows of the port
  unfoldable pub open_named : String → Act Session Bool
  unfolding metadata_for_port open_port
  open_named port = do
    device ← metadata_for_port world py port
    open_port world py port (serial_of device) (product_of device)

  abbrev pub announce : Bool → Act Session ConnectResult
  announce initial = (if initial then print_available_devices world py else pure tt) >> pure failed

  -- `if options.port`
  unfoldable pub connect_port : Bool → String → Act Session ConnectResult
  unfolding open_named print_available_devices
  connect_port initial port = do
    prefer (some port) none
    opened ← open_named port
    if opened then pure connected else announce initial

  unfoldable pub open_found :
      Option RelayUsbDevice → Act Session ConnectResult → Act Session ConnectResult
  unfolding open_device
  open_found none otherwise = otherwise
  open_found (some d) otherwise = open_device d

  -- `self.serial_selector(serial)`; a RelayError is printed
  unfoldable pub find_serial : String → Act Session (Option RelayUsbDevice)
  unfolding select_serial
  find_serial serial =
      catch_relay (do d ← select_serial world serial; pure (some d))
        (λ e. say (labelled e) >> pure none)

  -- `if options.serial`
  unfoldable pub connect_serial : Bool → String → Act Session ConnectResult
  unfolding find_serial open_found print_available_devices
  connect_serial initial serial = do
    prefer none (some serial)
    found ← find_serial serial
    open_found found (announce initial)

  -- `if … self.preferred_port`: where it does not open, the method calls itself with no selector
  -- and `skip_preferred`, which goes to the end
  unfoldable pub connect_preferred_port : String → Act Session ConnectResult
  unfolding open_named connect_selected
  connect_preferred_port port = do
    opened ← open_named port
    if opened then pure connected else connect_selected false

  unfoldable pub connect_preferred_serial : String → Act Session ConnectResult
  unfolding find_serial open_found connect_selected
  connect_preferred_serial serial = do
    found ← find_serial serial
    open_found found (connect_selected false)

  unfoldable pub connect_preferred : Option String → Option String → Act Session ConnectResult
  unfolding connect_preferred_port connect_preferred_serial connect_selected
  connect_preferred (some port) serial = connect_preferred_port port
  connect_preferred none (some serial) = connect_preferred_serial serial
  connect_preferred none none = connect_selected false

  unfoldable pub connect_again : Bool → Act Session ConnectResult
  unfolding connect_preferred connect_selected
  connect_again true s = connect_selected true s
  connect_again false s = connect_preferred (filled s.preferred_port) (filled s.preferred_serial) s

  unfoldable pub connect_by : Bool → Option String → Option String → Act Session ConnectResult
  unfolding connect_port connect_serial connect_again
  connect_by initial (some port) serial = connect_port initial port
  connect_by initial none (some serial) = connect_serial initial serial
  connect_by initial none none = connect_again initial

  -- _connect_from_options
  unfoldable pub connect_from_options : SessionOptions → Bool → Act Session ConnectResult
  unfolding connect_by
  connect_from_options options initial =
      connect_by initial (filled options.port) (filled options.serial)
