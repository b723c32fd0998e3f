-- ===== src/Session/Heartbeat.antt =====
-- The thread of the heartbeat (session.py, HeartbeatPoller): a beat per interval until it is
-- stopped. Only the flag `_failed` is its state.
use rp2350_relay_6ch.Prelude.{
  String, Bool, true, false, Option, none, some, List, [], ◌∷◌, ◌++◌, if◌then◌else◌,
}
use rp2350_relay_6ch.Errors.{Exc, Result, ok, err, is_relay_error}
use rp2350_relay_6ch.Value.{Fields}
use rp2350_relay_6ch.Session.Text.{format_heartbeat_error}

-- what a beat leaves: the flag, what was printed, and the exception that ended the thread
pub record Beat : Type 0 where
  pub failed : Bool
  pub printed : List String
  pub raised : Option Exc

-- the body of the loop of `_run`
unfoldable pub beat : Bool → Result Fields → Beat
unfolding format_heartbeat_error
beat failed (ok answer) = record {
  failed = false;
  printed = if failed then "heartbeat: restored" ∷ [] else [];
  raised = none;
}
beat failed (err e) =
    if is_relay_error e
    then record { failed = true; printed = format_heartbeat_error e ∷ []; raised = none }
    else record { failed = failed; printed = []; raised = some e }

abbrev after_beat : Beat → Beat → Beat
after_beat b later = record later { printed = b.printed ++ later.printed }

abbrev ended_by : Option Exc → Beat → Beat → Beat
ended_by none b later = after_beat b later
ended_by (some e) b later = b

-- HeartbeatPoller._run, over the answers of the device
unfoldable pub beats : Bool → List (Result Fields) → Beat
unfolding beat
beats failed [] = record { failed = failed; printed = []; raised = none }
beats failed (answer ∷ answers) =
    let b = beat failed answer in ended_by b.raised b (beats b.failed answers)
