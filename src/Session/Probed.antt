-- ===== src/Session/Probed.antt =====
-- What a quiet probe of a port leaves in a session without a client.
use rp2350_relay_6ch.Prelude.{
  ℕ, ◌≡◌, inl, inr, refl, String, true, Bool-cases, Option, none, some, ◌∷◌, arith,
}
use rp2350_relay_6ch.Errors.{Result, ok, err, is_relay_error, relay}
use rp2350_relay_6ch.Value.{Python, Fields}
use rp2350_relay_6ch.Client.{Call}
use rp2350_relay_6ch.Cli.{validate_protocol}
use rp2350_relay_6ch.Action.{Act, pure, lift, swallow, continue, continue_meets, ◌>>=◌, ◌>>◌}
use rp2350_relay_6ch.Session.World.{
  Session, SessionWorld, called, Trace, handled_relay, call, close_client, open_client,
}
use rp2350_relay_6ch.Session.Connect.{
  Probe, complain, probe_opened, after_open, probe_connection, enter_disconnected, stop_heartbeat,
  close_held,
}

pub enter_disconnected-IsOut :
    (world : SessionWorld) (py : Python) (s : Session)
    → (enter_disconnected world py s).1.client ≡ none
unfolding enter_disconnected stop_heartbeat close_held close_client
enter_disconnected-IsOut world py s = ground arith

module _ (world : SessionWorld) (py : Python) where
  -- the probe's status is what its client just answered
  abbrev pub Genuine : Option Probe → Session → Type 0
  Genuine none s = Unit {0}
  Genuine (some p) s =
      (t : Trace) × (s.trace ≡ called p.client Call.status ∷ t)
      × (world.call t p.client Call.status ≡ ok p.status)

  abbrev pub Probed : Result (Option Probe) → Session → Type 0
  Probed (ok p) s = (s.client ≡ none) × Genuine p s
  Probed (err e) s = s.client ≡ none

  -- an action that leaves a session without a client
  abbrev IsOut : {A : Type 0} → Result A → Session → Type 0
  IsOut r s = s.client ≡ none

  abbrev probe_of : ℕ → Fields → Fields → Act Session (Option Probe)
  probe_of c identity status =
      pure (some (record { client = c; identity = identity; status = status }))

  abbrev ask_status : ℕ → Fields → Act Session (Option Probe)
  ask_status c identity = call world c Call.status >>= probe_of c identity

  status-Probed :
      (c : ℕ) (identity : Fields) (t : Trace) (r : Result Fields) (s : Session)
      → world.call t c Call.status ≡ r
      → s.trace ≡ called c Call.status ∷ t
      → s.client ≡ none
      → let (q, s') = continue r (probe_of c identity) s in Probed q s'
  status-Probed c identity t (ok status) s e k h = (h, (t, k, e))
  status-Probed c identity t (err _) s e k h = h

  probe_opened-Probed :
      (c : ℕ) (s : Session)
      → s.client ≡ none
      → let (r, s') = probe_opened world py c s in Probed r s'
  unfolding probe_opened call
  probe_opened-Probed c s h =
      let s0 : Session = (call world c Call.identity s).1 in
      continue_meets IsOut Probed (world.call s.trace c Call.identity) s0
        (λ identity. lift (validate_protocol py identity) >> ask_status c identity) h
        (λ identity s1 h1.
          continue_meets IsOut Probed (validate_protocol py identity) s1
            (λ _. ask_status c identity) h1
            (λ _ s2 h2.
              status-Probed c identity s2.trace (world.call s2.trace c Call.status)
                (call world c Call.status s2).1 refl refl h2)
            (λ _ _ k. k))
        (λ _ _ k. k)

  -- the handler of a failed probe: it says nothing and closes the client
  abbrev give_back : ℕ → Act Session (Option Probe)
  give_back c = complain world py true (relay "") >> swallow (close_client world c) >> pure none

  give_back-Probed :
      (c : ℕ) (s : Session) → s.client ≡ none → let (r, s') = give_back c s in Probed r s'
  unfolding close_client
  give_back-Probed c s h = ground (arith, h)

  handled-Probed :
      (c : ℕ) (r : Result (Option Probe)) (s : Session)
      → Probed r s
      → let (q, s') = handled_relay r (λ _. give_back c) s in Probed q s'
  handled-Probed c (ok p) s h = h
  handled-Probed c (err e) s h = elim (Bool-cases (is_relay_error e)) [
    | inl k ↦ rw k (give_back-Probed c s h)
    | inr k ↦ rw k h
  ]

  after_open-Probed :
      (r : Result ℕ) (s : Session)
      → s.client ≡ none
      → let (q, s') = after_open world py true r s in Probed q s'
  unfolding after_open
  after_open-Probed (ok c) s h =
      handled-Probed c _ (probe_opened world py c s).1 (probe_opened-Probed c s h)
  after_open-Probed (err e) s h = elim (Bool-cases (is_relay_error e)) [
    | inl k ↦ rw k (h, tt)
    | inr k ↦ rw k h
  ]

  pub probe_connection-Probed :
      (port : String) (s : Session)
      → s.client ≡ none
      → let (r, s') = probe_connection world py port true s in Probed r s'
  unfolding probe_connection open_client
  probe_connection-Probed port s h = after_open-Probed _ _ h
