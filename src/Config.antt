-- ===== src/Config.antt =====
-- Named instances (host/rp2350_relay_6ch/config.py). The file system, the TOML parser, the
-- expansion of paths and Python's int() and float() of a value are parameters.
pub mod Resolve
pub mod Selector
pub mod Valid
use rp2350_relay_6ch.Prelude.{
  ℕ, String, Bool, true, false, not, ◌||◌, ◌<>◌, Option, none, some, List, [], ◌∷◌, keep, member,
  join, str_eq, if◌then◌else◌,
}
use rp2350_relay_6ch.Prelude.Int.{ℤ, pos, ltb_ℤ, leb_ℤ}
use rp2350_relay_6ch.Errors.{Exc, Result, ok, err, Done, and_then, validation}
use rp2350_relay_6ch.Value.{
  Python, Value, Fields, end, field, null, bool, int, float, str, obj, lookup, get, get_or, keys,
}

-- a float of Python; `ratio p q` is p / (q + 1)
pub data Number : Type 0 where
  ratio : ℤ → ℕ → Number
  nan infinity minus_infinity : Number

-- what int() or float() did: a number, TypeError or ValueError, or another exception
pub data Converted (A : Type 0) : Type 0 where
  converted : A → Converted A
  refused : Converted A
  raised : Exc → Converted A

-- what opening and parsing the configuration file did
pub data Loaded : Type 0 where
  not_found : Loaded
  invalid : String → Loaded
  failed : Exc → Loaded
  loaded : Value → Loaded

pub record System : Type 0 where
  pub environ : String → Option String
  pub expand_path : String → String
  pub default_config_path : String
  pub load_toml : String → Loaded
  pub to_int : Value → Converted ℤ
  pub to_float : Value → Converted Number
  pub strip_lower : String → String

pub record RelayInstanceConfig : Type 0 where
  pub name : String
  pub selector_type : String
  pub selector_value : String
  pub socket_path : String
  pub baud : ℤ
  pub timeout : Number
  pub retries : ℤ
  pub reconnect_interval : Number
  pub wait_device : Bool
  pub log_level : String
  pub config_path : String

-- _ENV_FIELDS
abbrev pub env_fields : List (String × String)
env_fields =
    ("port", "RP2350_RELAY_PORT")
    ∷ ("serial", "RP2350_RELAY_SERIAL")
    ∷ ("socket", "RP2350_RELAY_SOCKET")
    ∷ ("baud", "RP2350_RELAY_BAUD")
    ∷ ("timeout", "RP2350_RELAY_TIMEOUT")
    ∷ ("retries", "RP2350_RELAY_RETRIES")
    ∷ ("reconnect_interval", "RP2350_RELAY_RECONNECT_INTERVAL")
    ∷ ("wait_device", "RP2350_RELAY_WAIT_DEVICE")
    ∷ ("log_level", "RP2350_RELAY_LOG_LEVEL")
    ∷ []

-- _ALLOWED_INSTANCE_KEYS
abbrev pub allowed_instance_keys : List String
allowed_instance_keys =
    "port" ∷ "serial" ∷ "socket" ∷ "baud" ∷ "timeout" ∷ "retries" ∷ "reconnect_interval"
    ∷ "wait_device" ∷ "log_level" ∷ []

-- `values[key] = value`
unfoldable pub put : String → Value → Fields → Fields
put k v end = field k v end
put k v (field j u d) = if str_eq j k then field j v d else field j u (put k v d)

-- `values.pop(key, None)`
unfoldable pub pop : String → Fields → Fields
pop k end = end
pop k (field j v d) = let rest = pop k d in if str_eq j k then rest else field j v rest

-- _clear_other_selector
unfoldable pub clear_other_selector : Fields → String → Fields
unfolding pop
clear_other_selector values key =
    if str_eq key "port"
    then pop "serial" values
    else if str_eq key "serial"
    then pop "port" values
    else values

-- what both loops do with a key that is given
unfoldable pub override : String → Value → Fields → Fields
unfolding put clear_other_selector
override key value values = put key value (clear_other_selector values key)

override_text : String → Option String → Fields → Fields
unfolding override
override_text key none values = values
override_text key (some s) values = override key (str s) values

-- _apply_env, over the fields that are left
unfoldable pub apply_env : List (String × String) → (String → Option String) → Fields → Fields
unfolding override_text
apply_env [] env values = values
apply_env ((key, env_name) ∷ fields) env values =
    apply_env fields env (override_text key (env env_name) values)

-- `if value is not None`
override_value : String → Value → Fields → Fields
unfolding override
override_value key null values = values
override_value key v values = override key v values

-- the loop over the overrides
unfoldable pub apply_overrides : Fields → Fields → Fields
unfolding override_value
apply_overrides end values = values
apply_overrides (field key value overrides) values =
    apply_overrides overrides (override_value key value values)

-- `a or b` of texts that may be None
abbrev pub or_else : Option String → Option String → Option String
or_else none b = b
or_else (some a) b = if str_eq a "" then b else some a

abbrev pub or_text : Option String → String → String
or_text none b = b
or_text (some a) b = if str_eq a "" then b else a

unfoldable pub coerce_str : Value → String → Result String
coerce_str (str s) name = ok s
coerce_str _ name = err (validation (name <> " must be a string"))

-- _optional_str: the empty text counts as none
unfoldable pub optional_str : Value → String → Result (Option String)
unfolding coerce_str
optional_str null name = ok none
optional_str v name =
    and_then (coerce_str v name) (λ text. ok (if str_eq text "" then none else some text))

coerce_converted : Converted ℤ → String → ℤ → String → Result ℤ
coerce_converted refused name minimum shown = err (validation (name <> " must be an integer"))
coerce_converted (raised e) name minimum shown = err e
coerce_converted (converted n) name minimum shown =
    if ltb_ℤ n minimum then err (validation (name <> " must be >= " <> shown)) else ok n

-- _coerce_int; `shown` is the text of `minimum`
unfoldable pub coerce_int : System → Value → String → ℤ → String → Result ℤ
unfolding coerce_converted
coerce_int sys (bool b) name minimum shown = err (validation (name <> " must be an integer"))
coerce_int sys v name minimum shown = coerce_converted (sys.to_int v) name minimum shown

-- `result <= 0`: not so for NaN
abbrev pub at_most_zero : Number → Bool
at_most_zero (ratio p q) = leb_ℤ p (pos 0)
at_most_zero nan = false
at_most_zero infinity = false
at_most_zero minus_infinity = true

coerce_number : Converted Number → String → Result Number
coerce_number refused name = err (validation (name <> " must be a number"))
coerce_number (raised e) name = err e
coerce_number (converted x) name =
    if at_most_zero x then err (validation (name <> " must be positive")) else ok x

-- _coerce_float, with `positive=True` as in each of its calls
unfoldable pub coerce_float : System → Value → String → Result Number
unfolding coerce_number
coerce_float sys (bool b) name = err (validation (name <> " must be a number"))
coerce_float sys v name = coerce_number (sys.to_float v) name

coerce_normalized : String → String → Result Bool
coerce_normalized s name =
    if member s ("1" ∷ "true" ∷ "yes" ∷ "on" ∷ [])
    then ok true
    else if member s ("0" ∷ "false" ∷ "no" ∷ "off" ∷ [])
    then ok false
    else err (validation (name <> " must be a bool"))

unfoldable pub coerce_bool : System → Value → String → Result Bool
unfolding coerce_normalized
coerce_bool sys (bool b) name = ok b
coerce_bool sys (str s) name = coerce_normalized (sys.strip_lower s) name
coerce_bool sys _ name = err (validation (name <> " must be a bool"))
