-- ===== src/Tests/Tool.antt =====
-- Applications of the theorems on the command-line tool.
use rp2350_relay_6ch.Prelude.{refl, ◌≡◌, some, []}
use rp2350_relay_6ch.Prelude.Int.{pos}
use rp2350_relay_6ch.Client.{Call}
use rp2350_relay_6ch.Daemon.Invariant.{Gains}
use rp2350_relay_6ch.Cli.{parsed, parse_channel, parse_state, run_command}
use rp2350_relay_6ch.Cli.Commands.{run_command-Gains}
use rp2350_relay_6ch.Tests.{world, python}

run_command-Gains_example :
    Gains [] (run_command world python (some "COM1") Call.off_all_relays []).1 []
run_command-Gains_example =
    run_command-Gains world python (some "COM1") Call.off_all_relays [] (λ h. cc) (λ h. cc)

channel-parsed : parse_channel python "6" ≡ parsed (pos 5)
unfolding parse_channel
channel-parsed = refl

state-parsed : parse_state python "6" ≡ parsed (pos 6)
unfolding parse_state
state-parsed = refl
