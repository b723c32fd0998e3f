-- ===== src/Session/Round.antt =====
-- The rounds that look for a device after a reboot adopt a fresh one or none.
use rp2350_relay_6ch.Prelude.{
  ℕ, zero, suc, ◌≡◌, ◌⊎◌, inl, inr, refl, String, Bool, true, false, Bool-cases, Option, none, [],
  ◌++◌, ◌∙◌, ap, some, if◌then◌else◌, ◌∷◌,
}
use rp2350_relay_6ch.Errors.{Result, ok, err, is_relay_error, Result-cases}
use rp2350_relay_6ch.Value.{Python, Fields}
use rp2350_relay_6ch.Client.{Call}
use rp2350_relay_6ch.Cli.Format.{mask_of}
use rp2350_relay_6ch.Discovery.{RelayUsbDevice}
use rp2350_relay_6ch.Daemon.Connect.{is_reboot_reconnect_fresh}
use rp2350_relay_6ch.Action.{Act, pure, swallow, continue, continue_meets, ◌>>◌}
use rp2350_relay_6ch.Session.World.{
  Session, SessionWorld, called, heartbeat_started, Trace, say, rest, handled_relay, close_client,
  select_serial,
}
use rp2350_relay_6ch.Session.Connect.{
  Probe, probe_connection, adopt_connection, start_heartbeat, print_banner,
}
use rp2350_relay_6ch.Session.Reboot.{
  adopt_if_later, try_device, reconnect_round, reconnect_rounds, reconnect_after,
  reboot_reconnect_attempts,
}
use rp2350_relay_6ch.Session.Probed.{
  enter_disconnected-IsOut, Genuine, Probed, probe_connection-Probed,
}

module _ (world : SessionWorld) (py : Python) where
  -- `s` holds a client that answered, to a `status` after the reboot, with a fresh uptime
  abbrev pub HoldsFresh : Fields → Session → Type 0
  HoldsFresh before s =
      (c : ℕ) × (t : Trace) × (status : Fields) × (later : Trace) × (s.client ≡ some c)
      × (s.trace ≡ later ++ heartbeat_started c ∷ called c Call.status ∷ t)
      × (world.call t c Call.status ≡ ok status)
      × (is_reboot_reconnect_fresh before status ≡ true)

  abbrev pub EndsFresh : Fields → Session → Type 0
  EndsFresh before s = (s.client ≡ none) ⊎ HoldsFresh before s

  module _ (before : Fields) (serial : String) where
    -- a round that does not adopt leaves no client
    abbrev Round : Result Bool → Session → Type 0
    Round (ok false) s = s.client ≡ none
    Round r s = EndsFresh before s

    -- what is printed leaves the client as it is, and adds to the trace
    banner-adds :
        (p : Probe) (s : Session)
        → let s' = (print_banner world py p.identity p.status s).1 in
          (later : Trace) × (s'.client ≡ s.client) × (s'.trace ≡ later ++ s.trace)
    unfolding print_banner
    banner-adds p s = elim (Result-cases (mask_of py "state" p.status)) [
      | inr (e, k) ↦ rw k ([], refl, refl)
      | inl (state, k) ↦ rw k (elim (Result-cases (mask_of py "pulsing" p.status)) [
        | inr (e, l) ↦ rw l ([], refl, refl)
        | inl (pulsing, l) ↦ rw l (_ ∷ [], refl, refl)
      ])
    ]

    adopted-HoldsFresh :
        (d : RelayUsbDevice) (p : Probe) (s : Session) (t : Trace)
        → s.trace ≡ called p.client Call.status ∷ t
        → world.call t p.client Call.status ≡ ok p.status
        → is_reboot_reconnect_fresh before p.status ≡ true
        → HoldsFresh before (adopt_connection world py p d.port d.serial_number d.product s).1
    unfolding adopt_connection start_heartbeat
    adopted-HoldsFresh d p s t l e k =
        let (later, same, added) = banner-adds p (record s {
          client = some p.client;
          heartbeat = some p.client;
          connected = true;
          port = some d.port;
          usb_serial = d.serial_number;
          product = d.product;
          trace = heartbeat_started p.client ∷ s.trace;
        }) in
        (
          p.client,
          t,
          p.status,
          later,
          same,
          added ∙ ap (λ u. later ++ heartbeat_started p.client ∷ u) l,
          e,
          k,
        )

    -- a result of an adoption, with the end of the round
    adopted-Round :
        (r : Result (Unit {0})) (s : Session)
        → HoldsFresh before s
        → let (q, s') = continue {B = Bool} r (λ _. pure true) s in Round q s'
    adopted-Round (ok _) s h = inr h
    adopted-Round (err e) s h = inr h

    -- a round that gives its probe back
    abbrev put_back : Probe → Act Session Bool
    put_back p = swallow (close_client world p.client) >> rest >> pure false

    put_back-Round :
        (p : Probe) (s : Session) → s.client ≡ none → let (r, s') = put_back p s in Round r s'
    unfolding close_client
    put_back-Round p s h = elim (Result-cases (world.close_client s.trace p.client)) [
      | inl (u, k) ↦ rw k h
      | inr (e, k) ↦ rw k h
    ]

    adopt-Round :
        (d : RelayUsbDevice) (found : Option Probe) (s : Session)
        → s.client ≡ none
        → Genuine world py found s
        → let (r, s') = adopt_if_later world py before serial d found s in Round r s'
    unfolding adopt_if_later
    adopt-Round d none s h g = h
    adopt-Round d (some p) s h (t, l, e) =
        elim (Bool-cases (is_reboot_reconnect_fresh before p.status)) [
          | inl k ↦ rw k (
              adopted-Round (adopt_connection world py p d.port d.serial_number d.product s).0
                (adopt_connection world py p d.port d.serial_number d.product s).1
                (adopted-HoldsFresh d p s t l e k))
          | inr k ↦ rw k (put_back-Round p s h)
        ]

    try_device-Round :
        (found : Option RelayUsbDevice) (s : Session)
        → s.client ≡ none
        → let (r, s') = try_device world py before serial found s in Round r s'
    unfolding try_device
    try_device-Round none s h = h
    try_device-Round (some d) s h =
        let probed = probe_connection world py d.port true s in
        continue_meets (Probed world py) Round probed.0 probed.1
          (adopt_if_later world py before serial d) (probe_connection-Probed world py d.port s h)
          (λ found s' p. adopt-Round d found s' p.0 p.1) (λ _ _ k. inl k)

    -- what the search for the device leads to
    searched-Round :
        (q : Result RelayUsbDevice) (s : Session)
        → s.client ≡ none
        → let found = handled_relay (continue q (λ d. pure (some d)) s).0 (λ _. pure none) s in
          let (r, s') = continue found.0 (try_device world py before serial) found.1 in Round r s'
    searched-Round (ok d) s h = try_device-Round (some d) s h
    searched-Round (err e) s h = elim (Bool-cases (is_relay_error e)) [
      | inl k ↦ rw k (try_device-Round none s h)
      | inr k ↦ rw k (inl h)
    ]

    reconnect_round-Round :
        (s : Session)
        → s.client ≡ none
        → let (r, s') = reconnect_round world py before serial s in Round r s'
    unfolding reconnect_round select_serial
    reconnect_round-Round s h = elim (Result-cases (world.select_serial s.trace serial)) [
      | inl (d, k) ↦ rw k (searched-Round (ok d) _ h)
      | inr (e, k) ↦ rw k (searched-Round (err e) _ h)
    ]

    Round-EndsFresh :
        (n : ℕ) (r : Result Bool) (s : Session)
        → Round r s
        → ((t : Session)
            → t.client ≡ none
            → EndsFresh before (reconnect_rounds world py before serial n t).1)
        → EndsFresh before
            (continue r
              (λ adopted. if adopted then pure tt else reconnect_rounds world py before serial n)
              s).1
    Round-EndsFresh n (ok true) s h ih = h
    Round-EndsFresh n (ok false) s h ih = ih s h
    Round-EndsFresh n (err e) s h ih = h

    reconnect_rounds-EndsFresh :
        (n : ℕ) (s : Session)
        → s.client ≡ none
        → EndsFresh before (reconnect_rounds world py before serial n s).1
    unfolding reconnect_rounds
    reconnect_rounds-EndsFresh zero s h = inl (
        enter_disconnected-IsOut world py
          (say "reboot reconnect failed; run 'connect' to reconnect" s).1)
    reconnect_rounds-EndsFresh (suc n) s h =
        let (r, s') = reconnect_round world py before serial s in
        Round-EndsFresh n r s' (reconnect_round-Round s h) (reconnect_rounds-EndsFresh n)

  pub reconnect_after-EndsFresh :
      (before : Fields) (serial : Option String) (s : Session)
      → s.client ≡ none
      → EndsFresh before (reconnect_after world py before serial s).1
  unfolding reconnect_after
  reconnect_after-EndsFresh before none s h = inl (
      enter_disconnected-IsOut world py
        (say "reboot closed the connection; run 'connect' to reconnect" s).1)
  reconnect_after-EndsFresh before (some serial) s h =
      reconnect_rounds-EndsFresh before serial reboot_reconnect_attempts _ h
