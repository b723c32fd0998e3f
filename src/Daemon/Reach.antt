-- ===== src/Daemon/Reach.antt =====
-- The daemon as its threads run it: the connect that `run` begins with, then any interleaving of
-- requests, heartbeats and turns of the reconnect loop, each of them one step, and the shutdown.
-- A shutdown waits for the threads, but no longer than a second more than the timeout; a turn of
-- the reconnect loop that takes longer and ends after it is not among these steps.
use rp2350_relay_6ch.Prelude.{[], ◌≡◌, true, false, none, arith}
use rp2350_relay_6ch.Errors.{ok}
use rp2350_relay_6ch.Value.{Python}
use rp2350_relay_6ch.Requests.{Request}
use rp2350_relay_6ch.Daemon.World.{World, open_clients}
use rp2350_relay_6ch.Daemon.State.{Daemon, DaemonConfig, new_daemon}
use rp2350_relay_6ch.Daemon.Connect.{initial_connect, reconnect_tick}
use rp2350_relay_6ch.Daemon.Serve.{worker_step, heartbeat_once, shutdown}
use rp2350_relay_6ch.Daemon.Invariant.{IsConsistent, IsDown}
use rp2350_relay_6ch.Daemon.Keeps.{initial_connect-IsConsistent, reconnect_tick-IsConsistent}
use rp2350_relay_6ch.Daemon.Served.{handle_request-IsConsistent, heartbeat_once-IsConsistent}

pub data Step (world : World) (py : Python) (config : DaemonConfig) : Daemon → Daemon → Type 0 where
  request : (r : Request) (d : Daemon) → Step world py config d (worker_step world config r d).1
  heartbeat : (d : Daemon) → Step world py config d (heartbeat_once world d).1
  reconnect : (d : Daemon) → Step world py config d (reconnect_tick world py config d).1

pub data Reach (world : World) (py : Python) (config : DaemonConfig) : Daemon → Type 0 where
  begin : Reach world py config (initial_connect world py config new_daemon).1
  next :
      {d e : Daemon} → Reach world py config d → Step world py config d e → Reach world py config e

module _ (world : World) (py : Python) (config : DaemonConfig) where
  Step-IsConsistent : {d e : Daemon} → Step world py config d e → IsConsistent d → IsConsistent e
  unfolding worker_step
  Step-IsConsistent (request r d) v = handle_request-IsConsistent world config r d v
  Step-IsConsistent (heartbeat d) v = heartbeat_once-IsConsistent world d v
  Step-IsConsistent (reconnect d) v = reconnect_tick-IsConsistent world py config d v

  new_daemon-IsDown : IsDown [] new_daemon
  unfolding open_clients
  new_daemon-IsDown = ground arith

  -- In every state that the daemon reaches, the daemon is connected exactly while it holds a
  -- client and a port, it then has no error and waits for no reboot, and a start time and the
  -- status before the reboot are kept exactly while it waits for one. The clients that were opened
  -- and not closed are the one that is held, or none where none is held.
  pub Reach-IsConsistent : {d : Daemon} → Reach world py config d → IsConsistent d
  Reach-IsConsistent begin =
      initial_connect-IsConsistent world py config new_daemon new_daemon-IsDown
  Reach-IsConsistent (next r s) = Step-IsConsistent s (Reach-IsConsistent r)

  -- After a shutdown that raises nothing and that no turn of the reconnect loop overlaps, each
  -- client that was opened has been closed, and the daemon holds none.
  pub shutdown-closes_all :
      {d : Daemon}
      → Reach world py config d
      → (shutdown world d).0 ≡ ok tt
      → let d' = (shutdown world d).1 in
        (open_clients d'.trace ≡ [])
        × (d'.client ≡ none)
        × (d'.connected ≡ false)
        × (d'.stopped ≡ true)
  unfolding shutdown open_clients
  shutdown-closes_all {d} r h = ground (arith, Reach-IsConsistent r)
