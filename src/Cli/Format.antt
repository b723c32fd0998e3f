-- ===== src/Cli/Format.antt =====
-- What the tools print (cli.py, _format_human and below). A row is a key and the text of its value
-- in an f-string.
pub mod Results
use rp2350_relay_6ch.Prelude.{
  ℕ, zero, suc, ◌-◌, ◌/◌, ◌%◌, ◌^◌, String, Bool, true, false, not, ◌<>◌, Option, none, some, List,
  [], ◌∷◌, ◌++◌, map, keep, member, join, ltb, ◌==◌, str_eq, if◌then◌else◌,
}
use rp2350_relay_6ch.Prelude.Int.{ℤ, pos, negsuc}
use rp2350_relay_6ch.Errors.{Result, ok, err, and_then, foreign}
use rp2350_relay_6ch.Value.{
  Python, Value, Items, nil, cons, Fields, end, field, null, bool, int, float, str, arr, obj, other,
  lookup, get, get_or, keys, to_int,
}

abbrev pub Row : Type 0
Row = String × String

-- `len(text)`
unfoldable pub chars : String → ℕ
chars String.[] = 0
chars (String.◌∷◌ c s) = suc (chars s)

unfoldable pub spaces : ℕ → String
spaces zero = ""
spaces (suc n) = " " <> spaces n

-- f"{text:<{width}}"
unfoldable pub pad : ℕ → String → String
unfolding chars spaces
pad width text = text <> spaces (width - chars text)

abbrev pub greater : ℕ → ℕ → ℕ
greater a b = if ltb a b then b else a

-- the greatest length of a key
unfoldable pub key_width : List Row → ℕ
unfolding chars
key_width [] = 0
key_width ((key, value) ∷ rows) = greater (chars key) (key_width rows)

-- the body of _format_key_value_rows, with the width
unfoldable pub format_rows : ℕ → List Row → String
unfolding pad
format_rows width rows = join "\n" (map (λ r. pad (suc width) (r.0 <> ":") <> "  " <> r.1) rows)

-- _format_key_value_rows with no width: `max` of no keys raises ValueError.
unfoldable pub format_key_value_rows : List Row → Result String
unfolding format_rows key_width
format_key_value_rows [] = err (foreign "ValueError: max() iterable argument is empty")
format_key_value_rows (r ∷ rows) = ok (format_rows (key_width (r ∷ rows)) (r ∷ rows))

-- `mask & (1 << channel)`, of any integer
unfoldable pub has_bit : ℤ → ℕ → Bool
has_bit (pos n) k = n / 2 ^ k % 2 == 1
has_bit (negsuc n) k = n / 2 ^ k % 2 == 0

-- the channels 0 … of a mask, with the channels that are left
abbrev pub channel_names : List (ℕ × String)
channel_names = (0, "CH1") ∷ (1, "CH2") ∷ (2, "CH3") ∷ (3, "CH4") ∷ (4, "CH5") ∷ (5, "CH6") ∷ []

unfoldable pub named_channels : ℤ → List (ℕ × String) → List String
unfolding has_bit
named_channels mask [] = []
named_channels mask ((k, label) ∷ rest) =
    let labels = named_channels mask rest in if has_bit mask k then label ∷ labels else labels

-- _state_channels
abbrev pub state_channels : ℤ → List String
state_channels mask = named_channels mask channel_names

-- `", ".join(channels) if channels else "none"`
abbrev pub or_none : List String → String
or_none [] = "none"
or_none (c ∷ cs) = join ", " (c ∷ cs)

-- CAPABILITY_BITS
abbrev pub capability_bits : List (String × ℕ)
capability_bits =
    ("get", 0) ∷ ("get_all", 1) ∷ ("set", 2) ∷ ("set_all", 3) ∷ ("pulse", 4) ∷ ("off_all", 5) ∷ []

abbrev pub show_bool : Bool → String
show_bool true = "true"
show_bool false = "false"

abbrev pub is_no_items : Items → Bool
is_no_items nil = true
is_no_items (cons v l) = false

abbrev pub is_no_fields : Fields → Bool
is_no_fields end = true
is_no_fields (field k v d) = false

module _ (py : Python) where
  -- `bool(v)`
  unfoldable pub truthy : Value → Bool
  truthy null = false
  truthy (bool b) = b
  truthy (int (pos n)) = not (n == 0)
  truthy (int (negsuc n)) = true
  truthy (float (pos n) q) = not (n == 0)
  truthy (float (negsuc n) q) = true
  truthy (str s) = not (str_eq s "")
  truthy (arr l) = not (is_no_items l)
  truthy (obj d) = not (is_no_fields d)
  truthy (other s) = py.truth s

  -- _format_human_value, in an f-string
  unfoldable pub format_human_value : Value → String
  format_human_value null = "none"
  format_human_value (bool b) = show_bool b
  format_human_value v = py.show v

  -- `payload[key]`
  unfoldable pub item : String → Fields → Result Value
  unfolding lookup
  item key payload = elim (lookup key payload) [
    | none ↦ err (foreign ("'" <> key <> "'"))
    | some v ↦ ok v
  ]

  abbrev pub key_row : Fields → String → Row
  key_row payload key = (key, py.show (get key payload))

  -- the rows of the keys in their order, but for some
  unfoldable pub sorted_rows : List String → Fields → List Row
  unfolding get keys
  sorted_rows hidden payload =
      map (key_row payload) (keep (λ k. not (member k hidden)) (py.sorted (keys payload)))

  -- _format_key_values
  unfoldable pub format_key_values : Fields → Result String
  unfolding sorted_rows format_key_value_rows
  format_key_values payload = format_key_value_rows (sorted_rows [] payload)

  -- the label of a channel, f"CH{channel + 1}"
  abbrev pub channel_label : ℤ → String
  channel_label (pos n) = "CH" <> py.show_int (pos (suc n))
  channel_label (negsuc zero) = "CH" <> py.show_int (pos 0)
  channel_label (negsuc (suc n)) = "CH" <> py.show_int (negsuc n)

  abbrev pub pulsing_row : Option Value → List Row
  pulsing_row none = []
  pulsing_row (some v) = ("pulsing", show_bool (truthy v)) ∷ []

  -- _format_single_channel
  unfoldable pub format_single_channel : Fields → Result String
  unfolding item to_int truthy lookup format_key_value_rows
  format_single_channel payload =
      and_then (and_then (item "channel" payload) (to_int py)) (λ channel. format_key_value_rows (
        ("channel", channel_label channel)
        ∷ ("on", show_bool (truthy (get_or (bool false) (lookup "on" payload))))
        ∷ pulsing_row (lookup "pulsing" payload)))

  abbrev pub mask_of : String → Fields → Result ℤ
  mask_of key payload = to_int py (get_or (int (pos 0)) (lookup key payload))

  abbrev pub pulsing_mask_row : Option Value → ℤ → List Row
  pulsing_mask_row none mask = []
  pulsing_mask_row (some v) mask = ("pulsing", or_none (state_channels mask)) ∷ []

  -- _relay_mask_rows
  unfoldable pub relay_mask_rows : Fields → Result (List Row)
  unfolding to_int lookup named_channels
  relay_mask_rows payload = and_then (mask_of "state" payload) (λ state.
      and_then (mask_of "pulsing" payload) (λ pulsing. ok (
        ("state", "0x" <> py.hex2 state)
        ∷ ("on", or_none (state_channels state))
        ∷ pulsing_mask_row (lookup "pulsing" payload) pulsing)))

  -- _format_relay_masks
  unfoldable pub format_relay_masks : Fields → Result String
  unfolding relay_mask_rows format_key_value_rows
  format_relay_masks payload = and_then (relay_mask_rows payload) format_key_value_rows
