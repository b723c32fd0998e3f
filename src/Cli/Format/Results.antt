-- ===== src/Cli/Format/Results.antt =====
-- What the tools print for a whole result (cli.py, _format_human).
use rp2350_relay_6ch.Prelude.{
  ℕ, String, ◌<>◌, Option, none, some, List, [], ◌∷◌, ◌++◌, map, member, join, str_eq,
  if◌then◌else◌,
}
use rp2350_relay_6ch.Prelude.Int.{ℤ}
use rp2350_relay_6ch.Errors.{Result, ok, and_then}
use rp2350_relay_6ch.Value.{Python, Value, Fields, lookup, get, to_int}
use rp2350_relay_6ch.Cli.Format.{
  Row, pad, key_width, format_rows, format_key_value_rows, has_bit, capability_bits, show_bool,
  format_human_value, sorted_rows, format_key_values, format_single_channel, mask_of,
  relay_mask_rows, format_relay_masks,
}

module _ (py : Python) where
  abbrev pub health_rows : Fields → List Row
  health_rows payload =
      ("state", format_human_value py (get "health" payload))
      ∷ ("primary_reason", format_human_value py (get "health_primary_reason" payload))
      ∷ ("reasons", format_human_value py (get "health_reasons" payload))
      ∷ ("transitions", format_human_value py (get "health_transitions" payload))
      ∷ []

  abbrev pub section : String → ℕ → List Row → List String
  section title width rows = "" ∷ title ∷ py.splitlines (format_rows width rows)

  abbrev pub health_section : Option Value → ℕ → List Row → List String
  health_section none width rows = []
  health_section (some v) width rows = section "[health]" width rows

  abbrev pub transport_section : ℕ → List Row → List String
  transport_section width [] = []
  transport_section width (r ∷ rows) = section "[transport]" width (r ∷ rows)

  abbrev pub hidden_status_keys : List String
  hidden_status_keys =
      "state" ∷ "pulsing" ∷ "health" ∷ "health_primary_reason" ∷ "health_reasons"
      ∷ "health_transitions" ∷ "smp_uart" ∷ "usb_cdc_acm" ∷ []

  -- _format_status: the health rows count for the width also where they are not shown
  unfoldable pub format_status : Fields → Result String
  unfolding relay_mask_rows sorted_rows key_width format_rows format_human_value lookup get
  format_status payload = and_then (relay_mask_rows py payload) (λ relay_rows.
      let health = health_rows payload in
      let transport = sorted_rows py hidden_status_keys payload in
      let width = key_width (relay_rows ++ (health ++ transport)) in
      ok (
        join "\n" (
          ("[relays]" ∷ py.splitlines (format_rows width relay_rows))
          ++ (health_section (lookup "health" payload) width health
              ++ transport_section width transport))))

  abbrev pub human_row : Fields → String → Row
  human_row payload key = (key, format_human_value py (get key payload))

  -- _format_daemon_status
  unfoldable pub format_daemon_status : Fields → Result String
  unfolding format_human_value get format_key_value_rows
  format_daemon_status payload = format_key_value_rows (
      map (human_row payload) (
        "connected" ∷ "selector_type" ∷ "selector_value" ∷ "current_port" ∷ "socket_path"
        ∷ "reconnect_attempts" ∷ "last_error" ∷ "daemon_version" ∷ []))

  abbrev pub capability_line : ℤ → String × ℕ → String
  capability_line mask (name, bit) =
      "  " <> pad 8 (name <> ":") <> " " <> show_bool (has_bit mask bit)

  abbrev pub remaining_lines : List Row → List String
  remaining_lines [] = []
  remaining_lines (r ∷ rows) = py.splitlines (format_rows (key_width (r ∷ rows)) (r ∷ rows))

  -- _format_capabilities: the longest name of a capability has seven letters
  unfoldable pub format_capabilities : Fields → Result String
  unfolding to_int lookup has_bit pad format_rows key_width sorted_rows
  format_capabilities payload = and_then (mask_of py "capabilities" payload) (λ mask. ok (
      join "\n" (
        py.splitlines (format_rows 12 (("capabilities", "0x" <> py.hex mask) ∷ []))
        ++ (map (capability_line mask) capability_bits
            ++ remaining_lines (sorted_rows py ("capabilities" ∷ []) payload)))))

  -- _format_human; `dumps` is _format_json
  unfoldable pub format_human : (Fields → String) → String → Fields → Result String
  unfolding format_capabilities format_key_values format_single_channel format_relay_masks
      format_status format_daemon_status
  format_human dumps command payload =
      if str_eq command "capabilities"
      then format_capabilities payload
      else if member command
          ("identity" ∷ "health" ∷ "transport" ∷ "safety" ∷ "watchdog" ∷ "build-info" ∷ [])
      then format_key_values py payload
      else if str_eq command "get"
      then format_single_channel py payload
      else if member command ("get-all" ∷ "set" ∷ "set-all" ∷ "pulse" ∷ "off-all" ∷ [])
      then format_relay_masks py payload
      else if str_eq command "status"
      then format_status payload
      else if str_eq command "daemon-status"
      then format_daemon_status payload
      else if str_eq command "reboot"
      then ok "reboot requested"
      else if str_eq command "bootsel"
      then ok "bootsel requested"
      else if str_eq command "smoke"
      then ok "smoke test passed"
      else ok (dumps payload)
