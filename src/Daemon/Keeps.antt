-- ===== src/Daemon/Keeps.antt =====
-- Each turn of the daemon's loops keeps the invariant, whatever the device answers.
use rp2350_relay_6ch.Prelude.{
  ℕ, List, [], ◌∷◌, ◌-◌, ltb, String, Bool, true, false, ◌&&◌, not, Option, none, some, Bool-cases,
  inl, inr, arith,
}
use rp2350_relay_6ch.Errors.{
  Exc, Result, ok, err, relay, transport, timeout, protocol, validation, device, foreign,
}
use rp2350_relay_6ch.Value.{Python, Fields}
use rp2350_relay_6ch.Action.{Act, ◌>>=◌, ◌>>◌, gets, pure, continue_meets, handled_meets}
use rp2350_relay_6ch.Daemon.World.{
  World, open_clients, looked_up, timed, Probe, probe_ready, close_client,
}
use rp2350_relay_6ch.Daemon.State.{
  Daemon, DaemonConfig, outside, selected_port, adopt_probe, mark_disconnected,
  record_reboot_reconnect_failure,
}
use rp2350_relay_6ch.Daemon.Connect.{
  connect_ready, initial_failure, initial_connect, no_candidate, reconnect_candidate_port, no_probe,
  reconnect_probe, adopt_found, probe_candidate, reconnect_once, is_reboot_reconnect_fresh,
  adopt_if_fresh, recover_at, recover_candidate, recover_since, reconnect_after_reboot_once,
  reconnect_tick, or_empty, same_instance, reboot_recovery_min_ms,
}
use rp2350_relay_6ch.Daemon.Invariant.{
  IsConsistent, IsDown, IsDown-IsConsistent, IsConsistent-IsDown, probed, probe_ready-IsDown,
  selected_port-IsDown, mark_disconnected-IsDown, adopt_probe-IsConsistent, record_failure-IsDown,
  fail_reconnect-IsDown,
}

-- the clients in hand after a probe
abbrev in_hand : Result (Option Probe) → List ℕ
in_hand (ok (some probe)) = probe.client ∷ []
in_hand _ = []

-- what a connection attempt leaves, by how it ended
abbrev Outcome : {A : Type 0} → Result A → Daemon → Type 0
Outcome (ok _) d = IsConsistent d
Outcome (err _) d = IsDown [] d

-- `f` is a way to record a failure
abbrev Records : (String → Act Daemon (Unit {0})) → Type 0
Records f = (m : String) (d : Daemon) → IsDown [] d → IsDown [] (f m d).1

module _ (world : World) (py : Python) (config : DaemonConfig) where
  marks : Records (λ m. mark_disconnected world m true)
  marks m d v = mark_disconnected-IsDown world m true d (IsDown-IsConsistent d v)

  counts : Records record_reboot_reconnect_failure
  counts m d v = record_failure-IsDown m [] d v

  candidate-IsDown :
      (d : Daemon)
      → IsDown [] d
      → IsDown [] ((selected_port world config >>= λ port. pure (some port)) d).1
  candidate-IsDown d v = ground (arith, selected_port-IsDown world config d)

  module _ (f : String → Act Daemon (Unit {0})) (keeps : Records f) where
    no_candidate-IsDown :
        (e : Exc) (d : Daemon) → IsDown [] d → IsDown [] (no_candidate world py config f e d).1
    unfolding no_candidate
    no_candidate-IsDown (validation m) d v =
        ground (arith, keeps m d, fail_reconnect-IsDown (validation m) [] d)
    no_candidate-IsDown e d v = v

    reconnect_candidate_port-IsDown :
        (d : Daemon) → IsDown [] d → IsDown [] (reconnect_candidate_port world py config f d).1
    unfolding reconnect_candidate_port
    reconnect_candidate_port-IsDown d v =
        let m : Act Daemon (Option String) =
          selected_port world config >>= λ port. pure (some port) in
        handled_meets (λ _ s. IsDown [] s) (λ _ s. IsDown [] s) (m d).0 (m d).1
          (no_candidate world py config f) (candidate-IsDown d v) (λ _ _ h. h) no_candidate-IsDown

    no_probe-IsDown :
        (e : Exc) (d : Daemon)
        → IsDown [] d
        → let (r, d') = no_probe world py config f e d in IsDown (in_hand r) d'
    unfolding no_probe
    no_probe-IsDown (validation m) d v =
        ground (arith, keeps m d, fail_reconnect-IsDown (validation m) [] d)
    no_probe-IsDown (protocol m) d v = ground (arith, fail_reconnect-IsDown (protocol m) [] d)
    no_probe-IsDown (foreign m) d v = v
    no_probe-IsDown (relay m) d v = ground (arith, keeps m d)
    no_probe-IsDown (transport m) d v = ground (arith, keeps m d)
    no_probe-IsDown (timeout m) d v = ground (arith, keeps m d)
    no_probe-IsDown (device g rc m) d v = ground (arith, keeps m d)

    reconnect_probe-IsDown :
        (port : String) (d : Daemon)
        → IsDown [] d
        → let (r, d') = reconnect_probe world py config port f d in IsDown (in_hand r) d'
    unfolding reconnect_probe
    reconnect_probe-IsDown port d v =
        handled_meets (λ r s. IsDown (in_hand r) s) (λ r s. IsDown (in_hand r) s) _ _ _
          (ground (arith, probe_ready-IsDown world py port d)) (λ _ _ h. h) no_probe-IsDown

  initial_failure-IsConsistent :
      (e : Exc) (d : Daemon) → IsDown [] d → IsConsistent (initial_failure world py config e d).1
  unfolding initial_failure
  initial_failure-IsConsistent (validation m) d v = ground (
    arith,
    IsDown-IsConsistent d,
    marks m d,
    IsDown-IsConsistent (mark_disconnected world m true d).1,
  )
  initial_failure-IsConsistent (protocol m) d v = IsDown-IsConsistent d v
  initial_failure-IsConsistent (foreign m) d v = IsDown-IsConsistent d v
  initial_failure-IsConsistent (relay m) d v = ground (
    arith,
    IsDown-IsConsistent d,
    marks m d,
    IsDown-IsConsistent (mark_disconnected world m true d).1,
  )
  initial_failure-IsConsistent (transport m) d v = ground (
    arith,
    IsDown-IsConsistent d,
    marks m d,
    IsDown-IsConsistent (mark_disconnected world m true d).1,
  )
  initial_failure-IsConsistent (timeout m) d v = ground (
    arith,
    IsDown-IsConsistent d,
    marks m d,
    IsDown-IsConsistent (mark_disconnected world m true d).1,
  )
  initial_failure-IsConsistent (device g rc m) d v = ground (
    arith,
    IsDown-IsConsistent d,
    marks m d,
    IsDown-IsConsistent (mark_disconnected world m true d).1,
  )

  adopt_found-IsConsistent :
      (found : Option Probe) (d : Daemon)
      → IsDown (in_hand (ok found)) d
      → IsConsistent (adopt_found world py config found d).1
  unfolding adopt_found
  adopt_found-IsConsistent none d v = IsDown-IsConsistent d v
  adopt_found-IsConsistent (some p) d v = adopt_probe-IsConsistent world p d v

  probe_candidate-IsConsistent :
      (c : Option String) (d : Daemon)
      → IsDown [] d
      → IsConsistent (probe_candidate world py config c d).1
  unfolding probe_candidate
  probe_candidate-IsConsistent none d v = IsDown-IsConsistent d v
  probe_candidate-IsConsistent (some port) d v =
      continue_meets (λ r s. IsDown (in_hand r) s) (λ _ s. IsConsistent s) _ _ _
        (reconnect_probe-IsDown _ marks port d v) adopt_found-IsConsistent
        (λ _ s h. IsDown-IsConsistent s h)

  pub reconnect_once-IsConsistent :
      (d : Daemon) → IsDown [] d → IsConsistent (reconnect_once world py config d).1
  unfolding reconnect_once
  reconnect_once-IsConsistent d v =
      continue_meets (λ _ s. IsDown [] s) (λ _ s. IsConsistent s) _ _ _
        (reconnect_candidate_port-IsDown _ marks d v) probe_candidate-IsConsistent
        (λ _ s h. IsDown-IsConsistent s h)

  -- Once a client is adopted nothing is raised; before that none is held.
  adopt_probe-Outcome :
      (p : Probe) (d : Daemon)
      → IsDown (p.client ∷ []) d
      → Outcome (adopt_probe world p d).0 (adopt_probe world p d).1
  unfolding adopt_probe open_clients
  adopt_probe-Outcome p d v = rw (v.idle, adopt_probe) (ground arith)

  probe_port-Outcome :
      (port : String) (d : Daemon)
      → IsDown [] d
      → let (r, d') = (outside (probe_ready world py port) >>= λ p. adopt_probe world p) d in
        Outcome r d'
  probe_port-Outcome port d v =
      continue_meets (λ r s. IsDown (probed r) s) Outcome _ _ _
        (probe_ready-IsDown world py port d v) adopt_probe-Outcome (λ _ _ h. h)

  connect_ready-Outcome :
      (d : Daemon)
      → IsDown [] d
      → Outcome (connect_ready world py config d).0 (connect_ready world py config d).1
  unfolding connect_ready
  connect_ready-Outcome d v =
      continue_meets (λ _ s. IsDown [] s) Outcome _ _ _ (selected_port-IsDown world config d v)
        probe_port-Outcome (λ _ _ h. h)

  -- The first connection keeps the invariant, also where it fails and the daemon waits.
  pub initial_connect-IsConsistent :
      (d : Daemon) → IsDown [] d → IsConsistent (initial_connect world py config d).1
  unfolding initial_connect
  initial_connect-IsConsistent d v =
      handled_meets Outcome (λ _ s. IsConsistent s) (connect_ready world py config d).0
        (connect_ready world py config d).1 (initial_failure world py config)
        (connect_ready-Outcome d v) (λ _ _ h. h) initial_failure-IsConsistent

  stale_probe-IsConsistent :
      (c : ℕ) (m : String) (d : Daemon)
      → IsDown (c ∷ []) d
      → IsConsistent ((outside (close_client world c) >> record_reboot_reconnect_failure m) d).1
  unfolding close_client open_clients record_reboot_reconnect_failure
  stale_probe-IsConsistent c m d v = ground arith

  adopt_if_fresh-IsConsistent :
      (before : Fields) (found : Option Probe) (d : Daemon)
      → IsDown (in_hand (ok found)) d
      → IsConsistent (adopt_if_fresh world py config before found d).1
  unfolding adopt_if_fresh
  adopt_if_fresh-IsConsistent before none d v = IsDown-IsConsistent d v
  adopt_if_fresh-IsConsistent before (some p) d v =
      elim (Bool-cases (is_reboot_reconnect_fresh before p.status)) [
        | inl h ↦ rw h (adopt_probe-IsConsistent world p d v)
        | inr h ↦ rw h (stale_probe-IsConsistent p.client _ d v)
      ]

  probe_after_reboot-IsConsistent :
      (port : String) (d : Daemon)
      → IsDown [] d
      → IsConsistent
          ((reconnect_probe world py config port record_reboot_reconnect_failure >>= λ found.
              gets (λ s. or_empty world py config s.reboot_pre_status) >>= λ before.
              adopt_if_fresh world py config before found)
            d).1
  probe_after_reboot-IsConsistent port d v =
      continue_meets (λ r s. IsDown (in_hand r) s) (λ _ s. IsConsistent s) _ _ _
        (reconnect_probe-IsDown _ counts port d v)
        (λ found s h.
          adopt_if_fresh-IsConsistent (or_empty world py config s.reboot_pre_status) found s h)
        (λ _ s h. IsDown-IsConsistent s h)

  recover_at-IsConsistent :
      (port : String) (d : Daemon)
      → IsDown [] d
      → IsConsistent (recover_at world py config port d).1
  unfolding recover_at open_clients
  recover_at-IsConsistent port d v =
      let seen : Bool = elim (world.usb_instance d.trace port) [
        | none ↦ true
        | some _ ↦ d.reboot_missing_seen
      ] in
      let d' : Daemon = record d { reboot_missing_seen = seen; trace = looked_up port ∷ d.trace } in
      let down : IsDown [] d' = ground arith in
      elim (Bool-cases
        (same_instance d.reboot_usb_instance (world.usb_instance d.trace port) && not seen)) [
          | inl h ↦ rw h (IsDown-IsConsistent d' down)
          | inr h ↦ rw h (probe_after_reboot-IsConsistent port d' down)
        ]

  recover_candidate-IsConsistent :
      (c : Option String) (d : Daemon)
      → IsDown [] d
      → IsConsistent (recover_candidate world py config c d).1
  unfolding recover_candidate
  recover_candidate-IsConsistent none d v = IsDown-IsConsistent d v
  recover_candidate-IsConsistent (some port) d v = recover_at-IsConsistent port d v

  search_port-IsConsistent :
      (d : Daemon)
      → IsDown [] d
      → IsConsistent
          ((reconnect_candidate_port world py config record_reboot_reconnect_failure
              >>= recover_candidate world py config)
            d).1
  search_port-IsConsistent d v =
      continue_meets (λ _ s. IsDown [] s) (λ _ s. IsConsistent s) _ _ _
        (reconnect_candidate_port-IsDown _ counts d v) recover_candidate-IsConsistent
        (λ _ s h. IsDown-IsConsistent s h)

  recover_since-IsConsistent :
      (t : Option ℕ) (d : Daemon) → IsDown [] d → IsConsistent (recover_since world py config t d).1
  unfolding recover_since open_clients
  recover_since-IsConsistent none d v =
      IsDown-IsConsistent _ (mark_disconnected-IsDown world _ false d (IsDown-IsConsistent d v))
  recover_since-IsConsistent (some t) d v =
      let d' : Daemon = record d { trace = timed ∷ d.trace } in
      let down : IsDown [] d' = ground arith in
      elim (Bool-cases (ltb (world.monotonic_ms d.trace - t) reboot_recovery_min_ms)) [
        | inl h ↦ rw h (IsDown-IsConsistent d' down)
        | inr h ↦ rw h (search_port-IsConsistent d' down)
      ]

  -- One turn of the reconnect loop keeps the invariant.
  pub reconnect_tick-IsConsistent :
      (d : Daemon) → IsConsistent d → IsConsistent (reconnect_tick world py config d).1
  unfolding reconnect_tick reconnect_after_reboot_once
  reconnect_tick-IsConsistent d v = elim (Bool-cases d.connected) [
    | inl h ↦ ground arith
    | inr h ↦ ground (
      arith,
      IsConsistent-IsDown d v h,
      reconnect_once-IsConsistent d,
      recover_since-IsConsistent d.reboot_started_at d,
    )
  ]
