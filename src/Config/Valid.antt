-- ===== src/Config/Valid.antt =====
-- What a configuration that is accepted guarantees.
use rp2350_relay_6ch.Prelude.{◌≡◌, ◌⊎◌, String, false, Option, none, some, str_eq, arith}
use rp2350_relay_6ch.Prelude.Int.{ℤ, pos, ltb_ℤ}
use rp2350_relay_6ch.Errors.{ok, and_then-eq-ok}
use rp2350_relay_6ch.Value.{Value, Fields, bool, int, float, str, get}
use rp2350_relay_6ch.Config.{
  System, RelayInstanceConfig, Number, Converted, at_most_zero, coerce_int, coerce_float,
  coerce_bool, coerce_str, optional_str, coerce_converted, coerce_number,
}
use rp2350_relay_6ch.Config.Resolve.{
  coerce_instance, coerce_settings, required_path, selector, value_or,
}

converted-bound :
    (r : Converted ℤ) (name : String) (minimum n : ℤ) (shown : String)
    → coerce_converted r name minimum shown ≡ ok n
    → ltb_ℤ n minimum ≡ false
unfolding coerce_converted
converted-bound r name minimum n shown h = ground arith

coerce_int-bound :
    (sys : System) (v : Value) (name : String) (minimum n : ℤ) (shown : String)
    → coerce_int sys v name minimum shown ≡ ok n
    → ltb_ℤ n minimum ≡ false
unfolding coerce_int
coerce_int-bound sys (bool b) name minimum n shown h = absurd (cc)
coerce_int-bound sys v name minimum n shown h =
    converted-bound (sys.to_int v) name minimum n shown h

number-bound :
    (r : Converted Number) (name : String) (x : Number)
    → coerce_number r name ≡ ok x
    → at_most_zero x ≡ false
unfolding coerce_number
number-bound r name x h = ground arith

coerce_float-bound :
    (sys : System) (v : Value) (name : String) (x : Number)
    → coerce_float sys v name ≡ ok x
    → at_most_zero x ≡ false
unfolding coerce_float
coerce_float-bound sys (bool b) name x h = absurd (cc)
coerce_float-bound sys v name x h = number-bound (sys.to_float v) name x h

-- a configuration in range, with this selector
pub record IsValid (kind value : String) (c : RelayInstanceConfig) : Type 0 where
  pub selector_type : c.selector_type ≡ kind
  pub selector_value : c.selector_value ≡ value
  pub baud : ltb_ℤ c.baud (pos 1) ≡ false
  pub timeout : at_most_zero c.timeout ≡ false
  pub retries : ltb_ℤ c.retries (pos 0) ≡ false
  pub reconnect_interval : at_most_zero c.reconnect_interval ≡ false

coerce_settings-IsValid :
    (sys : System) (name path t v socket : String) (values : Fields) (c : RelayInstanceConfig)
    → coerce_settings sys name values path (t, v) socket ≡ ok c
    → IsValid t v c
unfolding coerce_settings
coerce_settings-IsValid sys name path t v socket values c h =
    let (baud, b, h1) =
      and_then-eq-ok
        (coerce_int sys (value_or sys (int (pos 115200)) "baud" values) "baud" (pos 1) "1") _ h in
    let (timeout, ti, h2) =
      and_then-eq-ok (coerce_float sys (value_or sys (float (pos 2) 0) "timeout" values) "timeout")
        _ h1 in
    let (retries, re, h3) =
      and_then-eq-ok
        (coerce_int sys (value_or sys (int (pos 1)) "retries" values) "retries" (pos 0) "0") _ h2 in
    let (interval, iv, h4) =
      and_then-eq-ok
        (coerce_float sys (value_or sys (float (pos 1) 0) "reconnect_interval" values)
          "reconnect_interval")
        _ h3 in
    let (wait, w, h5) =
      and_then-eq-ok
        (coerce_bool sys (value_or sys (bool false) "wait_device" values) "wait_device") _ h4 in
    let (level, l, h6) =
      and_then-eq-ok (coerce_str (value_or sys (str "INFO") "log_level" values) "log_level") _ h5 in
    let baud_ok = coerce_int-bound sys _ "baud" (pos 1) baud "1" b in
    let timeout_ok = coerce_float-bound sys _ "timeout" timeout ti in
    let retries_ok = coerce_int-bound sys _ "retries" (pos 0) retries "0" re in
    let interval_ok = coerce_float-bound sys _ "reconnect_interval" interval iv in ground arith

abbrev IsFilled : Option String → Type 0
IsFilled none = Unit
IsFilled (some s) = str_eq s "" ≡ false

optional_str-IsFilled :
    (v : Value) (name : String) (o : Option String) → optional_str v name ≡ ok o → IsFilled o
unfolding optional_str coerce_str
optional_str-IsFilled v name none h = tt
optional_str-IsFilled v name (some s) h = ground arith

selector-filled :
    (sys : System) (port serial : Option String) (chosen : String × String)
    → selector sys port serial ≡ ok chosen
    → IsFilled port
    → IsFilled serial
    → ((chosen.0 ≡ "port") ⊎ (chosen.0 ≡ "serial")) × (str_eq chosen.1 "" ≡ false)
unfolding selector
selector-filled sys (some p) none chosen h fp fs = ground arith
selector-filled sys none (some s) chosen h fp fs = ground arith
selector-filled sys none none chosen h fp fs = absurd (cc)
selector-filled sys (some p) (some s) chosen h fp fs = absurd (cc)

-- An instance that is accepted has one selector, of type port or serial, whose value is not empty;
-- its baud rate is at least 1, its retries are not negative, and its timeout and reconnect
-- interval are not zero or negative.
pub coerce_instance-IsValid :
    (sys : System) (name path : String) (values : Fields) (c : RelayInstanceConfig)
    → coerce_instance sys name values path ≡ ok c
    → (kind : String) × (value : String) × ((kind ≡ "port") ⊎ (kind ≡ "serial"))
      × (str_eq value "" ≡ false)
      × IsValid kind value c
unfolding coerce_instance
coerce_instance-IsValid sys name path values c h =
    let (port, p, h1) = and_then-eq-ok (optional_str (get "port" values) "port") _ h in
    let (serial, s, h2) = and_then-eq-ok (optional_str (get "serial" values) "serial") _ h1 in
    let (chosen, ch, h3) = and_then-eq-ok (selector sys port serial) _ h2 in
    let (socket, so, h4) = and_then-eq-ok (required_path sys (get "socket" values) "socket") _ h3 in
    let (kind, filled) =
      selector-filled sys port serial chosen ch (optional_str-IsFilled _ "port" port p)
        (optional_str-IsFilled _ "serial" serial s) in
    (
      chosen.0,
      chosen.1,
      kind,
      filled,
      coerce_settings-IsValid sys name path chosen.0 chosen.1 socket values c h4,
    )
