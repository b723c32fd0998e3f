-- ===== src/Discovery.antt =====
-- USB discovery (host/rp2350_relay_6ch/discovery.py). The list of serial ports of pyserial is an
-- argument.
pub mod Selected
use rp2350_relay_6ch.Prelude.{
  ℕ, ◌≡◌, ◌≢◌, refl, inl, inr, ◌⊎◌, String, Bool, true, false, not, ◌||◌, ◌&&◌, Option, none, some,
  is_some, List, [], ◌∷◌, ◌<>◌, keep, length, str_eq, if◌then◌else◌, ◌==◌, Bool-cases, arith,
  starts_with,
}
use text.Mathlib.Text.{find?}
use text.Mathlib.TextPositions.{starts_with-append}
use rp2350_relay_6ch.Errors.{Result, ok, err, validation}
use rp2350_relay_6ch.Daemon.State.{is_missing_selected_device}

abbrev pub relay_usb_vid : ℕ
relay_usb_vid = 0x2E8A

abbrev pub relay_usb_pid : ℕ
relay_usb_pid = 0x0009

abbrev pub relay_usb_product : String
relay_usb_product = "RP2350-Relay-6CH"

-- None where pyserial has no such attribute
pub record PortInfo : Type 0 where
  pub device : String
  pub vid : Option ℕ
  pub pid : Option ℕ
  pub product : Option String
  pub serial_number : Option String

pub record RelayUsbDevice : Type 0 where
  pub port : String
  pub serial_number : Option String
  pub product : Option String
  pub verified_product : Bool

abbrev pub is_id : ℕ → Option ℕ → Bool
is_id n none = false
is_id n (some m) = m == n

-- the truth value of a text or None
abbrev pub is_text : Option String → Bool
is_text none = false
is_text (some s) = not (str_eq s "")

-- the device that a port with the relay's USB ids is, if any
unfoldable pub candidate : PortInfo → Option String → Option RelayUsbDevice
candidate p (some product) =
    if is_some (find? product relay_usb_product)
    then some (record {
      port = p.device;
      serial_number = p.serial_number;
      product = some product;
      verified_product = true;
    })
    else none
candidate p none =
    if is_text p.serial_number
    then some (record {
      port = p.device;
      serial_number = p.serial_number;
      product = none;
      verified_product = false;
    })
    else none

-- one turn of the loop: `continue`, or perhaps a device
unfoldable pub device_of : PortInfo → Option RelayUsbDevice
unfolding candidate
device_of p =
    if not (is_id relay_usb_vid p.vid)
    then none
    else if not (is_id relay_usb_pid p.pid)
    then none
    else candidate p p.product

abbrev pub add_device : Option RelayUsbDevice → List RelayUsbDevice → List RelayUsbDevice
add_device none devices = devices
add_device (some d) devices = d ∷ devices

unfoldable pub list_relay_devices : List PortInfo → List RelayUsbDevice
unfolding device_of
list_relay_devices [] = []
list_relay_devices (p ∷ ports) = add_device (device_of p) (list_relay_devices ports)

abbrev pub has_serial : String → RelayUsbDevice → Bool
has_serial s d = elim d.serial_number [ none ↦ false | some t ↦ str_eq t s ]

unfoldable pub choose : String → List RelayUsbDevice → Result RelayUsbDevice
choose usb_serial [] = err (validation ("no relay device found with USB serial " <> usb_serial))
choose usb_serial (d ∷ []) = ok d
choose usb_serial (d ∷ _ ∷ _) =
    err (validation ("multiple relay devices found with USB serial " <> usb_serial))

unfoldable pub select_device_by_serial : String → List PortInfo → Result RelayUsbDevice
unfolding choose list_relay_devices
select_device_by_serial usb_serial ports =
    choose usb_serial (keep (has_serial usb_serial) (list_relay_devices ports))
