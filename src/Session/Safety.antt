-- ===== src/Session/Safety.antt =====
-- When a session may be left, and which connection it takes after a reboot.
use rp2350_relay_6ch.Prelude.{
  ◌<>◌, ℕ, ◌≡◌, ◌⊎◌, inl, inr, refl, Bool, true, false, ◌&&◌, Bool-cases, false≢true, Option, none,
  some, if◌then◌else◌, arith,
}
use rp2350_relay_6ch.Prelude.Int.{ℤ, pos, eqb_ℤ}
use rp2350_relay_6ch.Errors.{Result, ok, err, and_then, foreign}
use rp2350_relay_6ch.Cli.Format.{item, mask_of}
use rp2350_relay_6ch.Value.{Python, Value, Fields, int, to_int, lookup, get_or}
use rp2350_relay_6ch.Client.{Call}
use rp2350_relay_6ch.Action.{Act, pure, lift, continue, ◌>>◌}
use rp2350_relay_6ch.Session.World.{Session, SessionWorld, say, call, close_client}
use rp2350_relay_6ch.Session.Connect.{close_current, enter_disconnected, stop_heartbeat, close_held}
use rp2350_relay_6ch.Session.Commands.{require_client}
use rp2350_relay_6ch.Session.Closing.{
  verdict_of_masks, after_status, read_masks, masks_of, close_allowed, leave, handle_exit,
  handle_disconnect,
}

-- a test of integers that passes
eqb_ℤ-eq : (n : ℤ) → eqb_ℤ n (pos 0) ≡ true → n ≡ pos 0
eqb_ℤ-eq n h = ground (arith, h)

if-true :
    {A : Type 0} (P : A → Type 0) (b : Bool) (x y : A) → b ≡ true → P x → P (if b then x else y)
if-true P true x y h p = p
if-true P false x y h p = absurd (false≢true h)

module _ (world : SessionWorld) (py : Python) where
  -- int() of the value is 0
  abbrev pub IsZero : Value → Type 0
  IsZero v = to_int py v ≡ ok (pos 0)

  -- a status with a state of 0, and a pulsing mask of 0 where it has one
  abbrev pub IsQuiet : Fields → Type 0
  IsQuiet status =
      ((state : Value) × (lookup "state" status ≡ some state) × IsZero state)
      × ((lookup "pulsing" status ≡ none)
          ⊎ ((pulsing : Value) × (lookup "pulsing" status ≡ some pulsing) × IsZero pulsing))

  both-IsZero :
      (a b : Result ℤ)
      → and_then {B = ℤ × ℤ} a (λ state. and_then {B = ℤ × ℤ} b (λ pulsing. ok (state, pulsing)))
        ≡ ok (pos 0, pos 0)
      → (a ≡ ok (pos 0)) × (b ≡ ok (pos 0))
  both-IsZero a b e = ground arith

  present_state :
      (o : Option Value) (b : Result ℤ)
      → and_then
          (elim o [ none ↦ err (foreign ("'" <> "state" <> "'")) | some v ↦ ok v ])
          (λ value.
            and_then {B = ℤ × ℤ}
              (to_int py value)
              (λ state. and_then {B = ℤ × ℤ} b (λ pulsing. ok (state, pulsing))))
        ≡ ok (pos 0, pos 0)
      → ((state : Value) × (o ≡ some state) × IsZero state) × (b ≡ ok (pos 0))
  present_state none b e = absurd (cc)
  present_state (some v) b e = let (p, q) = both-IsZero (to_int py v) b e in ((v, refl, p), q)

  present_pulsing :
      (o : Option Value)
      → to_int py (get_or (int (pos 0)) o) ≡ ok (pos 0)
      → (o ≡ none) ⊎ ((pulsing : Value) × (o ≡ some pulsing) × IsZero pulsing)
  present_pulsing none e = inl refl
  present_pulsing (some v) e = inr (v, refl, e)

  -- the masks that the code reads are 0 in such a status only
  masks_of-IsQuiet :
      (status : Fields) → masks_of world py status ≡ ok (pos 0, pos 0) → IsQuiet status
  unfolding masks_of item
  masks_of-IsQuiet status e =
      let (state, pulsing) =
        present_state (lookup "state" status) (mask_of py "pulsing" status) e in
      (state, present_pulsing (lookup "pulsing" status) pulsing)

  -- the device answered the client of a session with such a status
  abbrev pub IsAllOff : Session → Type 0
  IsAllOff s =
      (c : ℕ) × (status : Fields) × (s.client ≡ some c)
      × (world.call s.trace c Call.status ≡ ok status)
      × IsQuiet status

  abbrev pub StaysOpen : Session → Session → Type 0
  StaysOpen s s' =
      (s'.client ≡ s.client)
      × (s'.heartbeat ≡ s.heartbeat)
      × (s'.connected ≡ s.connected)
      × (s'.should_exit ≡ s.should_exit)

  -- what a test for a way out gives
  abbrev Checked : Session → Result Bool × Session → Type 0
  Checked s x = (((x.0 ≡ ok true) × IsAllOff s) ⊎ (x.0 ≡ ok false)) × StaysOpen s x.1

  verdict-Checked :
      (s s' : Session) (n p : ℤ)
      → StaysOpen s s'
      → ((n ≡ pos 0) → (p ≡ pos 0) → IsAllOff s)
      → Checked s (verdict_of_masks (n, p) s')
  verdict-Checked s s' n p h off = elim (Bool-cases (eqb_ℤ n (pos 0) && eqb_ℤ p (pos 0))) [
    | inl e ↦ rw e (inl (refl, off (ground (arith, e)) (ground (arith, e))), h)
    | inr e ↦ rw e (inr refl, h)
  ]

  masks-Checked :
      (s s' : Session) (q : Result (ℤ × ℤ))
      → StaysOpen s s'
      → (q ≡ ok (pos 0, pos 0) → IsAllOff s)
      → Checked s (after_status q s')
  masks-Checked s s' (ok (n, p)) h off = verdict-Checked s s' n p h (λ a b. off (cc (a, b)))
  masks-Checked s s' (err e) h off = (inr refl, h)

  status-Checked :
      (s s' : Session) (r : Result Fields)
      → StaysOpen s s'
      → ((status : Fields)
          → r ≡ ok status
          → masks_of world py status ≡ ok (pos 0, pos 0)
          → IsAllOff s)
      → let (q, t) = continue r (λ status. lift (masks_of world py status)) s' in
        Checked s (after_status q t)
  status-Checked s s' (ok status) h off =
      masks-Checked s s' (masks_of world py status) h (off status refl)
  status-Checked s s' (err e) h off = (inr refl, h)

  held-Checked :
      (s : Session) (c : Option ℕ)
      → Checked (record s { client = c }) (close_allowed world py false (record s { client = c }))
  unfolding close_allowed read_masks require_client call
  held-Checked s none = (inr refl, (refl, refl, refl, refl))
  held-Checked s (some c) =
      let s' : Session = record s { client = some c } in
      status-Checked s' (call world c Call.status s').1 (world.call s.trace c Call.status)
        (refl, refl, refl, refl) (λ status e off. (c, status, refl, e, masks_of-IsQuiet status off))

  -- where a session is left without force
  close_allowed-Checked : (s : Session) → Checked s (close_allowed world py false s)
  close_allowed-Checked s = held-Checked s s.client

  abbrev pub Left : Session → Type 0
  Left s = (s.client ≡ none) × (s.heartbeat ≡ none) × (s.connected ≡ false)

  Checked-Left :
      (s : Session) (r : Result Bool) (t : Session) (m : Act Session (Unit {0}))
      → Checked s (r, t)
      → ((u : Session) → Left (m u).1)
      → let s' = (continue r (λ b. if b then m else pure tt) t).1 in
        (IsAllOff s × Left s') ⊎ StaysOpen s s'
  Checked-Left s (ok true) t m (inl (e, off), stays) left = inl (off, left t)
  Checked-Left s (ok true) t m (inr e, stays) left = absurd (ground (arith, e))
  Checked-Left s (ok false) t m (c, stays) left = inr stays
  Checked-Left s (err e) t m (c, stays) left = inr stays

  pub enter_disconnected-Left : (s : Session) → Left (enter_disconnected world py s).1
  unfolding enter_disconnected stop_heartbeat close_held close_client
  enter_disconnected-Left s = ground arith

  quitting-Left : (s : Session) → Left ((close_current world py false true >> leave world py) s).1
  unfolding close_current enter_disconnected stop_heartbeat close_held close_client
  quitting-Left s = ground arith

  parting-Left :
      (s : Session) → Left ((close_current world py false true >> say "disconnected") s).1
  unfolding close_current enter_disconnected stop_heartbeat close_held close_client
  parting-Left s = ground arith

  -- where a way out of a connected session leads
  abbrev pub LeavesSafely : Session → Session → Type 0
  LeavesSafely s s' = (IsAllOff s × Left s') ⊎ StaysOpen s s'

  -- A connected session that is asked to exit or to disconnect without force drops its connection
  -- only where the device answered to `status` with a state of 0 and with a pulsing mask of 0 or
  -- without one. Otherwise it
  -- keeps the connection and its heartbeat, and is not told to exit.
  pub leaving-IsSafe :
      (s : Session)
      → s.connected ≡ true
      → LeavesSafely s (handle_exit world py false s).1
        × LeavesSafely s (handle_disconnect world py false s).1
  unfolding handle_exit handle_disconnect
  leaving-IsSafe s h = (
    if-true (λ (x : Result (Unit {0}) × Session). LeavesSafely s x.1) s.connected _ _ h
        (Checked-Left s (close_allowed world py false s).0 (close_allowed world py false s).1
          (close_current world py false true >> leave world py) (close_allowed-Checked s)
          quitting-Left),
    if-true (λ (x : Result (Unit {0}) × Session). LeavesSafely s x.1) s.connected _ _ h
        (Checked-Left s (close_allowed world py false s).0 (close_allowed world py false s).1
          (close_current world py false true >> say "disconnected") (close_allowed-Checked s)
          parting-Left),
  )
