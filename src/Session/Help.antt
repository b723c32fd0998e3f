-- ===== src/Session/Help.antt =====
-- The help of a session.
use rp2350_relay_6ch.Prelude.{String, [], ◌∷◌, join}

-- _print_help
unfoldable pub help_text : String
help_text = join "\n" (
    "Inspect:"
    ∷ "  status                       show relay state, transport counters, and last error"
    ∷ "  get <channel>                show one relay state"
    ∷ "  get-all                      show all relay states"
    ∷ "  identity                     show controller hardware and protocol information"
    ∷ "  capabilities                 show controller capabilities"
    ∷ "  build-info                   show firmware build details"
    ∷ "  health                       show health details"
    ∷ "  transport                    show transport details"
    ∷ "  safety                       show safety policy details"
    ∷ "  watchdog                     show watchdog details" ∷ "" ∷ "Control:"
    ∷ "  set <channel> <on|off>       set one relay"
    ∷ "  set-all <mask>               set all relays from a six-bit mask"
    ∷ "  pulse <channel> <duration>   pulse one relay for duration in ms"
    ∷ "  off-all                      turn every relay off and cancel pulses"
    ∷ "  smoke [--pulse-ms <ms>]      pulse each relay and turn all off" ∷ "" ∷ "Connection:"
    ∷ "  connect                      connect using saved selector or discovery"
    ∷ "  connect --port <port>        connect to a serial port"
    ∷ "  connect --serial <serial>    connect by USB serial number"
    ∷ "  bootsel                      enter RP2350 ROM BOOTSEL for picotool or UF2"
    ∷ "  disconnect                   close only when relays are confirmed off"
    ∷ "  disconnect --force           close without confirmed all-off state" ∷ "" ∷ "Exit:"
    ∷ "  exit                         exit only when relays are confirmed off"
    ∷ "  quit                         same as exit"
    ∷ "  exit --force                 exit without confirmed all-off state"
    ∷ "  quit --force                 same as exit --force" ∷ "" ∷ "Notes:"
    ∷ "  Channels are board labels: 1 is CH1, 6 is CH6."
    ∷ "  Run off-all before disconnecting or exiting."
    ∷ "  Use --force only when you intentionally accept unknown or active relay state." ∷ [])
