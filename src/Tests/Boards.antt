-- ===== src/Tests/Boards.antt =====
-- Applications of the theorems on discovery and on the smoke sequence.
use rp2350_relay_6ch.Prelude.{◌≡◌, none, some, [], ◌∷◌, keep}
use rp2350_relay_6ch.Prelude.Int.{pos}
use rp2350_relay_6ch.Errors.{ok}
use rp2350_relay_6ch.Value.{end, int}
use rp2350_relay_6ch.Client.{off_all_relays}
use rp2350_relay_6ch.Discovery.{PortInfo, select_device_by_serial}
use rp2350_relay_6ch.Discovery.Selected.{is_board, Selected, select_device_by_serial_lem}
use rp2350_relay_6ch.Smoke.{
  SmokeRelayClient, Completed, newest, run_smoke_sequence, run_smoke_sequence_lem,
}

abbrev board : PortInfo
board = record {
  device = "COM1";
  vid = some 0x2E8A;
  pid = some 9;
  product = some "Waveshare RP2350-Relay-6CH";
  serial_number = some "A1";
}

abbrev unnamed : PortInfo
unnamed = record board { device = "COM2"; product = none; serial_number = some "B2" }

abbrev modem : PortInfo
modem = record board { device = "COM3"; vid = some 7 }

select_device_by_serial_lem_example :
    Selected "B2"
      (keep (is_board "B2") (board ∷ unnamed ∷ modem ∷ []))
      (select_device_by_serial "B2" (board ∷ unnamed ∷ modem ∷ []))
select_device_by_serial_lem_example =
    select_device_by_serial_lem "B2" (board ∷ unnamed ∷ modem ∷ [])

abbrev calm : SmokeRelayClient
calm = record { answer = λ calls m. ok end }

run_smoke_sequence_lem_example :
    let (r, calls') = run_smoke_sequence calm (int (pos 50)) [] in
    (newest calls' ≡ some off_all_relays) × Completed calm (int (pos 50)) r [] calls'
run_smoke_sequence_lem_example = run_smoke_sequence_lem calm (int (pos 50)) []
