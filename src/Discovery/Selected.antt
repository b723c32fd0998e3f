-- ===== src/Discovery/Selected.antt =====
-- Which device a USB serial selects.
use rp2350_relay_6ch.Prelude.{
  ◌≡◌, refl, String, Bool, true, false, ◌&&◌, none, some, is_some, List, [], ◌∷◌, ◌<>◌, keep,
  str_eq, arith, if◌then◌else◌,
}
use mathlib.Core.List.{map}
use text.Mathlib.Text.{find?}
use text.Mathlib.TextPositions.{starts_with-append}
use rp2350_relay_6ch.Errors.{Result, ok, err, validation}
use rp2350_relay_6ch.Discovery.{
  PortInfo, RelayUsbDevice, relay_usb_vid, relay_usb_pid, relay_usb_product, is_id, is_text,
  has_serial, candidate, device_of, add_device, list_relay_devices, choose, select_device_by_serial,
}
use rp2350_relay_6ch.Daemon.State.{is_missing_selected_device, missing_device_text}

-- The port is a relay board with this USB serial: it has the board's USB ids, and the board's
-- product text unless the system knows no product text.
abbrev pub is_board : String → PortInfo → Bool
is_board s p =
    is_id relay_usb_vid p.vid
    && is_id relay_usb_pid p.pid
    && elim p.product [
      | none ↦ is_text p.serial_number
      | some product ↦ is_some (find? product relay_usb_product)
    ]
    && elim p.serial_number [ none ↦ false | some t ↦ str_eq t s ]

abbrev as_device : PortInfo → RelayUsbDevice
as_device p = record {
  port = p.device;
  serial_number = p.serial_number;
  product = p.product;
  verified_product = is_some p.product;
}

one_port :
    (s : String) (p : PortInfo) (devices : List RelayUsbDevice) (ports : List PortInfo)
    → keep (has_serial s) devices ≡ map as_device ports
    → keep (has_serial s) (add_device (device_of p) devices)
      ≡ map as_device (if is_board s p then p ∷ ports else ports)
unfolding device_of candidate
one_port s p devices ports h = ground arith

listed :
    (s : String) (ports : List PortInfo)
    → keep (has_serial s) (list_relay_devices ports) ≡ map as_device (keep (is_board s) ports)
unfolding list_relay_devices
listed s [] = refl
listed s (p ∷ ports) =
    one_port s p (list_relay_devices ports) (keep (is_board s) ports) (listed s ports)

-- What the boards with a serial make of the selection.
abbrev pub Selected : String → List PortInfo → Result RelayUsbDevice → Type 0
Selected s [] r = (m : String) × (r ≡ err (validation m)) × (is_missing_selected_device m ≡ true)
Selected s (p ∷ []) r =
    (d : RelayUsbDevice) × (r ≡ ok d)
    × (d.port ≡ p.device)
    × (d.serial_number ≡ p.serial_number)
    × (d.verified_product ≡ is_some p.product)
Selected s (_ ∷ _ ∷ _) r =
    r ≡ err (validation ("multiple relay devices found with USB serial " <> s))

chosen : (s : String) (ports : List PortInfo) → Selected s ports (choose s (map as_device ports))
unfolding choose is_missing_selected_device missing_device_text
chosen s [] = (_, refl, starts_with-append "no relay device found with USB serial " s)
chosen s (p ∷ []) = (as_device p, refl, refl, refl, refl)
chosen s (_ ∷ _ ∷ _) = refl

-- A serial selects the port of the one board that has it. If no board has it the selection is
-- refused with the message by which the daemon knows a missing device, and if several have it with
-- a message that names them as several.
pub select_device_by_serial_lem :
    (s : String) (ports : List PortInfo)
    → Selected s (keep (is_board s) ports) (select_device_by_serial s ports)
unfolding select_device_by_serial
select_device_by_serial_lem s ports = rw (listed s ports) (chosen s (keep (is_board s) ports))
