-- ===== src/Session/Text.antt =====
-- What a session prints (session.py, lines 809 to 963).
use rp2350_relay_6ch.Prelude.{
  ℕ, zero, suc, ◌+◌, String, Bool, true, false, ◌<>◌, List, [], ◌∷◌, ◌++◌, map, join,
}
use rp2350_relay_6ch.Prelude.Int.{ℤ}
use rp2350_relay_6ch.Errors.{
  Exc, message, validation, timeout, transport, protocol, device, relay, foreign,
}
use rp2350_relay_6ch.Value.{Python}
use rp2350_relay_6ch.Cli.Format.{
  Row, chars, pad, greater, key_width, named_channels, state_channels, or_none,
}

-- _error_label
unfoldable pub error_label : Exc → String
error_label (validation m) = "argument error"
error_label (timeout m) = "timeout error"
error_label (transport m) = "transport error"
error_label (protocol m) = "protocol error"
error_label (device group rc m) = "device error"
error_label (relay m) = "relay error"
error_label (foreign m) = "error"

-- f"{_error_label(exc)}: {exc}"
abbrev pub labelled : Exc → String
labelled e = error_label e <> ": " <> message e

-- _format_error
unfoldable pub format_error : Python → Exc → String
unfolding error_label
format_error py (device group rc m) =
    "device error: group=" <> py.show_int group <> " rc=" <> py.show_int rc <> ": " <> m
format_error py e = labelled e

-- _format_heartbeat_error
unfoldable pub format_heartbeat_error : Exc → String
unfolding error_label
format_heartbeat_error (timeout m) = "heartbeat: no response"
format_heartbeat_error (transport m) = "heartbeat: serial link unavailable"
format_heartbeat_error e = "heartbeat: " <> error_label e

-- _format_channels
unfoldable pub format_channels : ℤ → String
unfolding named_channels
format_channels mask = or_none (state_channels mask)

unfoldable pub repeated : ℕ → String → String
repeated zero s = ""
repeated (suc n) s = s <> repeated n s

abbrev pub startup_box_min_width : ℕ
startup_box_min_width = 60

unfoldable pub longest : List String → ℕ
unfolding chars
longest [] = 0
longest (row ∷ rows) = greater (chars row) (longest rows)

-- _format_startup_box
unfoldable pub format_startup_box : List Row → String
unfolding pad key_width longest repeated
format_startup_box rows =
    let label_width = key_width rows in
    let content =
      "  RP2350 Relay Session"
      ∷ ""
      ∷ map (λ (r : Row). "  " <> pad (label_width + 1) (r.0 <> ":") <> "  " <> r.1) rows in
    let inner_width = greater startup_box_min_width (longest content) in
    let rule = repeated (inner_width + 2) "─" in
    join "\n" (
      (("╭" <> rule <> "╮") ∷ map (λ (row : String). "│ " <> pad inner_width row <> " │") content)
      ++ ("╰" <> rule <> "╯") ∷ [])

-- _format_prompt
unfoldable pub format_prompt : String → Bool → String
format_prompt state true = "\u{1b}[32mrp2350-relay\u{1b}[0m[\u{1b}[34m" <> state <> "\u{1b}[0m]$ "
format_prompt state false = "rp2350-relay[" <> state <> "]$ "
