-- ===== src/Daemon/Recovery.antt =====
-- The recovery after a firmware reboot: what a daemon that is connected again has seen.
use rp2350_relay_6ch.Prelude.{
  ℕ, ◌-◌, ◌≡◌, ◌∷◌, refl, ◌∙◌, sym, ap, false≢true, if◌then◌else◌, inl, inr, String, Bool, true,
  false, not, ◌&&◌, Option, none, some, Bool-cases, ltb, str_eq, eq_refl, arith,
}
use mathlib.Core.Option.{some-injective}
use rp2350_relay_6ch.Errors.{
  Exc, Result, ok, err, validation, protocol, foreign, relay, transport, timeout, device,
}
use rp2350_relay_6ch.Value.{Python, Fields}
use rp2350_relay_6ch.Action.{Act, ◌>>=◌, gets, pure, catch, continue}
use rp2350_relay_6ch.Daemon.World.{
  World, Trace, Probe, looked_up, timed, probe_ready, monotonic_ms, close_client, selected,
}
use rp2350_relay_6ch.Daemon.State.{
  Daemon, DaemonConfig, record_reboot_reconnect_failure, fail_reconnect, selected_port,
  is_missing_selected_device,
}
use rp2350_relay_6ch.Daemon.Connect.{
  is_reboot_reconnect_fresh, same_instance, no_probe, reconnect_probe, adopt_if_fresh, recover_at,
  recover_candidate, recover_since, reconnect_after_reboot_once, no_candidate,
  reconnect_candidate_port, or_empty, reboot_recovery_min_ms,
}

module _ (world : World) (py : Python) (config : DaemonConfig) where
  -- what follows the probe, given its result
  abbrev go_on : Result Probe → Act Daemon (Unit {0})
  go_on r =
      catch (continue r (λ p. pure (some p)))
        (no_probe world py config record_reboot_reconnect_failure)
      >>= λ found. gets (λ s. or_empty world py config s.reboot_pre_status) >>= λ before.
          adopt_if_fresh world py config before found

  no_probe-down :
      (e : Exc) (d : Daemon)
      → d.connected ≡ false
      → let (r, d') = no_probe world py config record_reboot_reconnect_failure e d in
        (d'.connected ≡ false) × ((p : Probe) → r ≡ ok (some p) → ⊥)
  unfolding no_probe record_reboot_reconnect_failure fail_reconnect
  no_probe-down (validation m) d h = elim (Bool-cases (is_missing_selected_device m)) [
    | inl e ↦ rw e (h, λ p x. cc)
    | inr e ↦ rw e (h, λ p x. cc)
  ]
  no_probe-down (foreign m) d h = (h, λ p e. cc)
  no_probe-down (protocol m) d h = (h, λ p e. cc)
  no_probe-down (relay m) d h = (h, λ p e. cc)
  no_probe-down (transport m) d h = (h, λ p e. cc)
  no_probe-down (timeout m) d h = (h, λ p e. cc)
  no_probe-down (device g rc m) d h = (h, λ p e. cc)

  -- the probe was adopted only if its status shows a later boot
  adopt-down :
      (found : Result (Option Probe)) (before : Fields) (d : Daemon)
      → d.connected ≡ false
      → ((p : Probe) → found ≡ ok (some p) → ⊥)
      → (continue found
          (λ found. gets (λ s. or_empty world py config s.reboot_pre_status) >>= λ before.
            adopt_if_fresh world py config before found)
          d).1.connected
        ≡ false
  unfolding adopt_if_fresh
  adopt-down (ok none) before d down h = down
  adopt-down (ok (some p)) before d down h = absurd (h p refl)
  adopt-down (err e) before d down h = down

  go_on-Seen :
      (r : Result Probe) (before : Fields) (d : Daemon)
      → d.connected ≡ false
      → d.reboot_pre_status ≡ some before
      → (go_on r d).1.connected ≡ true
      → (p : Probe) × (r ≡ ok p) × (is_reboot_reconnect_fresh before p.status ≡ true)
  unfolding adopt_if_fresh record_reboot_reconnect_failure close_client
  go_on-Seen (ok p) before d down pre up =
      elim (Bool-cases (is_reboot_reconnect_fresh before p.status)) [
        | inl h ↦ (p, refl, h)
        | inr h ↦ absurd (ground arith)
      ]
  go_on-Seen (err e) before d down pre up =
      let (down', not_found) = no_probe-down e d down in
      let found = no_probe world py config record_reboot_reconnect_failure e d in
      absurd (false≢true (sym (adopt-down found.0 before found.1 down' not_found) ∙ up))

  -- A candidate on this port, seen after the run `t`, was probed and shows a later boot than
  -- `before`; if it has the USB instance of before, that instance had been gone in between.
  abbrev pub Recovered : String → Trace → Fields → Daemon → Type 0
  Recovered port t before d =
      (p : Probe) × ((probe_ready world py port (looked_up port ∷ t)).0 ≡ ok p)
      × (is_reboot_reconnect_fresh before p.status ≡ true)
      × ((i : String)
          → d.reboot_usb_instance ≡ some i
          → world.usb_instance t port ≡ some i
          → d.reboot_missing_seen ≡ true)

  branch-connected :
      (b : Bool) (k : Act Daemon (Unit {0})) (d : Daemon)
      → d.connected ≡ false
      → ((if b then pure tt else k) d).1.connected ≡ true
      → (b ≡ false) × ((k d).1.connected ≡ true)
  branch-connected true k d down up = absurd (false≢true (sym down ∙ up))
  branch-connected false k d down up = (refl, up)

  gone-before :
      (i : String) (old new : Option String) (missing : Bool)
      → old ≡ some i
      → new ≡ some i
      → (same_instance old new && not (elim new [ none ↦ true | some _ ↦ missing ])) ≡ false
      → missing ≡ true
  gone-before i old none missing e f h = ground arith
  gone-before i none (some j) missing e f h = ground arith
  gone-before i (some k) (some j) true e f h = refl
  gone-before i (some k) (some j) false e f h =
      let same : str_eq j k ≡ true =
        ap (λ c. str_eq c k) (some-injective j i f)
        ∙ ap (str_eq i) (some-injective k i e)
        ∙ eq_refl i in
      ground arith

  recover_at-Recovered :
      (port : String) (before : Fields) (d : Daemon)
      → d.connected ≡ false
      → d.reboot_pre_status ≡ some before
      → (recover_at world py config port d).1.connected ≡ true
      → Recovered port d.trace before d
  unfolding recover_at reconnect_probe
  recover_at-Recovered port before d down pre up =
      let seen : Bool = elim (world.usb_instance d.trace port) [
        | none ↦ true
        | some _ ↦ d.reboot_missing_seen
      ] in
      let d' : Daemon = record d { reboot_missing_seen = seen; trace = looked_up port ∷ d.trace } in
      let probed = probe_ready world py port (looked_up port ∷ d.trace) in
      let (h, up') =
        branch-connected
          (same_instance d.reboot_usb_instance (world.usb_instance d.trace port) && not seen)
          (reconnect_probe world py config port record_reboot_reconnect_failure >>= λ found.
            gets (λ s. or_empty world py config s.reboot_pre_status) >>= λ before.
            adopt_if_fresh world py config before found)
          d' down up in
      let (p, found, fresh) =
        go_on-Seen probed.0 before (record d' { trace = probed.1 }) down pre up' in
      (
        p,
        found,
        fresh,
        λ i e f.
            gone-before i d.reboot_usb_instance (world.usb_instance d.trace port)
              d.reboot_missing_seen e f h,
      )

  -- looking for the candidate changes neither the connection nor what is known of the reboot
  abbrev SameReboot : Daemon → Daemon → Type 0
  SameReboot d d' =
      (d'.connected ≡ d.connected)
      × (d'.reboot_pre_status ≡ d.reboot_pre_status)
      × (d'.reboot_usb_instance ≡ d.reboot_usb_instance)
      × (d'.reboot_missing_seen ≡ d.reboot_missing_seen)

  no_candidate-SameReboot :
      (e : Exc) (d : Daemon)
      → SameReboot d (no_candidate world py config record_reboot_reconnect_failure e d).1
  unfolding no_candidate record_reboot_reconnect_failure fail_reconnect
  no_candidate-SameReboot (validation m) d = elim (Bool-cases (is_missing_selected_device m)) [
    | inl e ↦ rw e (refl, refl, refl, refl)
    | inr e ↦ rw e (refl, refl, refl, refl)
  ]
  no_candidate-SameReboot (foreign m) d = (refl, refl, refl, refl)
  no_candidate-SameReboot (protocol m) d = (refl, refl, refl, refl)
  no_candidate-SameReboot (relay m) d = (refl, refl, refl, refl)
  no_candidate-SameReboot (transport m) d = (refl, refl, refl, refl)
  no_candidate-SameReboot (timeout m) d = (refl, refl, refl, refl)
  no_candidate-SameReboot (device g rc m) d = (refl, refl, refl, refl)

  selected-SameReboot :
      (r : Result String) (d : Daemon)
      → SameReboot d
          (catch
            (continue r (λ port. pure (some port)))
            (no_candidate world py config record_reboot_reconnect_failure)
            d).1
  selected-SameReboot (ok port) d = (refl, refl, refl, refl)
  selected-SameReboot (err e) d = no_candidate-SameReboot e d

  candidate-SameReboot :
      (d : Daemon)
      → SameReboot d (reconnect_candidate_port world py config record_reboot_reconnect_failure d).1
  unfolding reconnect_candidate_port selected_port
  candidate-SameReboot d = elim (Bool-cases (str_eq config.selector_type "port")) [
    | inl e ↦ rw e (selected-SameReboot (ok config.selector_value) d)
    | inr e ↦ rw e (
        selected-SameReboot (world.select_serial d.trace config.selector_value)
          (record d { trace = selected config.selector_value ∷ d.trace }))
  ]

  on_candidate :
      (r : Result (Option String)) (before : Fields) (d : Daemon)
      → d.connected ≡ false
      → d.reboot_pre_status ≡ some before
      → (continue r (recover_candidate world py config) d).1.connected ≡ true
      → (port : String) × (r ≡ ok (some port)) × Recovered port d.trace before d
  unfolding recover_candidate
  on_candidate (ok none) before d down pre up = absurd (false≢true (sym down ∙ up))
  on_candidate (ok (some port)) before d down pre up =
      (port, refl, recover_at-Recovered port before d down pre up)
  on_candidate (err e) before d down pre up = absurd (false≢true (sym down ∙ up))

  -- A daemon that is waiting for the device after a reboot, and is connected again after a turn of
  -- `_reconnect_after_reboot_once`, let at least reboot_recovery_min_ms pass since the reboot and
  -- found a candidate port on which a probe succeeded with a fresh status, whose uptime is below
  -- that of before or where one of the two is missing; if the port has the USB instance of before,
  -- that instance had been seen missing in between.
  pub reconnected_after_reboot :
      (started : ℕ) (before : Fields) (d : Daemon)
      → d.connected ≡ false
      → d.reboot_started_at ≡ some started
      → d.reboot_pre_status ≡ some before
      → (reconnect_after_reboot_once world py config d).1.connected ≡ true
      → let (candidate, d') =
          reconnect_candidate_port world py config record_reboot_reconnect_failure
            (record d { trace = timed ∷ d.trace }) in
        (ltb (world.monotonic_ms d.trace - started) reboot_recovery_min_ms ≡ false)
        × (port : String) × (candidate ≡ ok (some port))
        × Recovered port d'.trace before d
  unfolding reconnect_after_reboot_once recover_since monotonic_ms
  reconnected_after_reboot started before d down start pre up =
      let d1 = record d { trace = timed ∷ d.trace } in
      let (candidate, d') =
        reconnect_candidate_port world py config record_reboot_reconnect_failure d1 in
      let (same_c, same_p, same_u, same_m) = candidate-SameReboot d1 in
      let (late, up') =
        branch-connected (ltb (world.monotonic_ms d.trace - started) reboot_recovery_min_ms)
          (reconnect_candidate_port world py config record_reboot_reconnect_failure
            >>= recover_candidate world py config)
          d1 down (ap (λ o. (recover_since world py config o d).1.connected) (sym start) ∙ up) in
      let (port, found, (p, probed, fresh, gone)) =
        on_candidate candidate before d' (same_c ∙ down) (same_p ∙ pre) up' in
      (late, port, found, (p, probed, fresh, λ i e f. sym same_m ∙ gone i (same_u ∙ e) f))
