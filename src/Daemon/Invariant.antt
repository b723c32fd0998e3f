-- ===== src/Daemon/Invariant.antt =====
-- What every method of the daemon keeps: the fields that describe the connection agree, and each
-- client that is open is the one that is held.
use rp2350_relay_6ch.Prelude.{
  ℕ, List, [], ◌∷◌, ◌++◌, as_list, ◌≡◌, String, Bool, false, ◌&&◌, Option, none, some, is_some,
  arith,
}
use rp2350_relay_6ch.Errors.{Exc, Result, ok, err}
use rp2350_relay_6ch.Value.{Python, Fields}
use rp2350_relay_6ch.Daemon.World.{Trace, World, open_clients, Probe, probe_ready, close_client}
use rp2350_relay_6ch.Daemon.State.{
  Daemon, DaemonConfig, outside, selected_port, adopt_probe, mark_disconnected,
  enter_reboot_recovery, record_reboot_reconnect_failure, fail_reconnect,
}

pub record IsConsistent (d : Daemon) : Type 0 where
  pub connected : d.connected ≡ is_some d.client
  pub port : is_some d.current_port ≡ is_some d.client
  pub no_error : (is_some d.client && is_some d.last_error) ≡ false
  pub not_recovering : (is_some d.client && d.reboot_recovery) ≡ false
  pub started : is_some d.reboot_started_at ≡ d.reboot_recovery
  pub before : is_some d.reboot_pre_status ≡ d.reboot_recovery
  pub balanced : open_clients d.trace ≡ as_list d.client

-- No client is held, and `clients` are in hand, which are still to be adopted or closed.
pub record IsDown (clients : List ℕ) (d : Daemon) : Type 0 where
  pub idle : d.client ≡ none
  pub connected : d.connected ≡ false
  pub port : d.current_port ≡ none
  pub started : is_some d.reboot_started_at ≡ d.reboot_recovery
  pub before : is_some d.reboot_pre_status ≡ d.reboot_recovery
  pub balanced : open_clients d.trace ≡ clients

pub IsDown-IsConsistent : (d : Daemon) → IsDown [] d → IsConsistent d
IsDown-IsConsistent d v = ground arith

pub IsConsistent-IsDown : (d : Daemon) → IsConsistent d → d.connected ≡ false → IsDown [] d
IsConsistent-IsDown d v h = ground arith

-- `t'` goes on from `t`, and `clients` are open after it and were not open before.
abbrev pub Gains : Trace → Trace → List ℕ → Type 0
Gains t t' clients = open_clients t' ≡ clients ++ open_clients t

-- the client of a probe that succeeded
abbrev pub probed : Result Probe → List ℕ
probed (ok probe) = probe.client ∷ []
probed (err _) = []

module _ (world : World) where
  pub probe_ready-Gains :
      (py : Python) (port : String) (t : Trace)
      → let (r, t') = probe_ready world py port t in Gains t t' (probed r)
  unfolding probe_ready open_clients
  probe_ready-Gains py port t = ground arith

  pub probe_ready-IsDown :
      (py : Python) (port : String) (d : Daemon)
      → IsDown [] d
      → let (r, d') = outside (probe_ready world py port) d in IsDown (probed r) d'
  probe_ready-IsDown py port d v = ground (arith, probe_ready-Gains py port d.trace)

  pub selected_port-IsDown :
      (config : DaemonConfig) (d : Daemon)
      → IsDown [] d
      → IsDown [] (selected_port world config d).1
  unfolding selected_port open_clients
  selected_port-IsDown config d v = ground arith

  pub mark_disconnected-IsDown :
      (m : String) (b : Bool) (d : Daemon)
      → IsConsistent d
      → IsDown [] (mark_disconnected world m b d).1
  unfolding mark_disconnected open_clients
  mark_disconnected-IsDown m b d v = ground arith

  pub adopt_probe-IsConsistent :
      (p : Probe) (d : Daemon) → IsDown (p.client ∷ []) d → IsConsistent (adopt_probe world p d).1
  unfolding adopt_probe open_clients
  adopt_probe-IsConsistent p d v = ground arith

  pub close_client-IsDown :
      (c : ℕ) (d : Daemon) → IsDown (c ∷ []) d → IsDown [] (outside (close_client world c) d).1
  unfolding close_client open_clients
  close_client-IsDown c d v = ground arith

  pub enter_reboot_recovery-IsDown :
      (before : Fields) (port : Option String) (c : ℕ) (d : Daemon)
      → d.client ≡ some c
      → IsConsistent d
      → IsDown [] (enter_reboot_recovery world before port c d).1
  unfolding enter_reboot_recovery open_clients
  enter_reboot_recovery-IsDown before port c d h v = ground arith

pub record_failure-IsDown :
    (m : String) (n : List ℕ) (d : Daemon)
    → IsDown n d
    → IsDown n (record_reboot_reconnect_failure m d).1
unfolding record_reboot_reconnect_failure
record_failure-IsDown m n d v = ground arith

pub fail_reconnect-IsDown :
    (e : Exc) (n : List ℕ) (d : Daemon) → IsDown n d → IsDown n (fail_reconnect e d).1
unfolding fail_reconnect
fail_reconnect-IsDown e n d v = ground arith
