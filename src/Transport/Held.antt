-- ===== src/Transport/Held.antt =====
-- When SerialSmpTransport holds a port, and what its exchange raises.
use rp2350_relay_6ch.Prelude.{
  ℕ, as_list, without, is_some, ◌≡◌, refl, ap, String, true, false, Bytes, Option, none, some, List,
  [], ◌∷◌, arith, Bool-cases, inl, inr, ◌⊎◌, ◌∙◌,
}
use rp2350_relay_6ch.Errors.{Exc, Result, ok, err, message, is_timeout_error, transport, foreign}
use rp2350_relay_6ch.Action.{Act, handled, continue, ◌>>=◌, ◌>>◌, lift}
use rp2350_relay_6ch.Smp.{Framing, serial_frames}
use rp2350_relay_6ch.Transport.{
  Event, opened, closed, reset, wrote, Outcome, gave, raised, Pyserial, SerialSmpTransport,
  result_of, with_port, keep_port, open_port, close_serial, close, open_serial, write_all,
  read_lines, talk, give_up, exchange,
}

-- the ports that were opened and not closed, the newest first
unfoldable pub open_ports : List Event → List ℕ
open_ports [] = []
open_ports (opened port ∷ events) = port ∷ open_ports events
open_ports (closed port ∷ events) = without port (open_ports events)
open_ports (_ ∷ events) = open_ports events

-- the port that is held, if one is, is the only one that is open
abbrev pub IsHeld : SerialSmpTransport → Type 0
IsHeld t = open_ports t.events ≡ as_list t.serial

-- a part that keeps the port as it is
record Keeps {A : Type 0} (m : Act SerialSmpTransport A) : Type 0 where
  kept : (t : SerialSmpTransport) → ((m t).1.serial ≡ t.serial) × (IsHeld t → IsHeld (m t).1)

module _ {A B : Type 0} where
  continue_kept :
      (r : Result A) (k : A → Act SerialSmpTransport B) (t u : SerialSmpTransport)
      → (u.serial ≡ t.serial) × (IsHeld t → IsHeld u)
      → ((a : A) → Keeps (k a))
      → ((continue r k u).1.serial ≡ t.serial) × (IsHeld t → IsHeld (continue r k u).1)
  continue_kept (ok a) k t u (p, q) h = let (p', q') = (h a).kept u in (p' ∙ p, λ b. q' (q b))
  continue_kept (err e) k t u p h = p

  bind-Keeps :
      {m : Act SerialSmpTransport A} {k : A → Act SerialSmpTransport B}
      → Keeps m
      → ((a : A) → Keeps (k a))
      → Keeps (m >>= k)
  bind-Keeps {m = m} {k = k} p h = record {
    kept = λ t. continue_kept (m t).0 k t (m t).1 (p.kept t) h;
  }

module _ (pyserial : Pyserial) (framing : Framing) where
  reset-Keeps : (port : ℕ) → Keeps (with_port (λ events. pyserial.reset events port) (reset port))
  unfolding open_ports
  reset-Keeps port = record { kept = λ t. (refl, λ b. b) }

  wrote-Keeps :
      (port : ℕ) (frame : Bytes)
      → Keeps (with_port (λ events. pyserial.write events port frame) (wrote port frame))
  unfolding open_ports
  wrote-Keeps port frame = record { kept = λ t. (refl, λ b. b) }

  write_all-Keeps : (port : ℕ) (frames : List Bytes) → Keeps (write_all pyserial port frames)
  unfolding write_all
  write_all-Keeps port [] = record { kept = λ t. (refl, λ b. b) }
  write_all-Keeps port (frame ∷ frames) =
      bind-Keeps (wrote-Keeps port frame) (λ _. write_all-Keeps port frames)

  read_lines-Keeps : (port : ℕ) → Keeps (read_lines pyserial port)
  unfolding read_lines
  read_lines-Keeps port = record { kept = λ t. (refl, λ b. b) }

  lift-Keeps : (r : Result Bytes) → Keeps (lift {S = SerialSmpTransport} r)
  lift-Keeps r = record { kept = λ t. (refl, λ b. b) }

  talk-Keeps : (packet : Bytes) (port : ℕ) → Keeps (talk pyserial framing packet port)
  unfolding talk
  talk-Keeps packet port = bind-Keeps (reset-Keeps port) (λ _.
      bind-Keeps (write_all-Keeps port (serial_frames framing packet))
        (λ _. bind-Keeps (read_lines-Keeps port) (λ lines. lift-Keeps _)))

  -- How an exchange ends: it returns, it runs into a timeout, or it gives the port up.
  abbrev pub Ended : Result Bytes → SerialSmpTransport → Type 0
  Ended (ok response) t = is_some t.serial ≡ true
  Ended (err e) t =
      ((is_timeout_error e ≡ true) × (is_some t.serial ≡ true))
      ⊎ ((t.serial ≡ none)
          × (((m : String) × (e ≡ transport m))
              ⊎ ((m : String) × (events : List Event) × (port : ℕ) × (e ≡ foreign m)
                  × (pyserial.close events port ≡ raised m))))

  -- `_open`: a port is held, or an exception that is no timeout was raised
  Opened : Result ℕ → SerialSmpTransport → Type 0
  Opened (ok port) t = IsHeld t × (is_some t.serial ≡ true)
  Opened (err e) t = IsHeld t × (is_timeout_error e ≡ false)

  keep_port-Opened :
      (o : Outcome ℕ) (events : List Event)
      → open_ports events ≡ []
      → let (r, t) = keep_port pyserial o (record { serial = none; events = events }) in Opened r t
  unfolding keep_port open_ports Opened
  keep_port-Opened (raised m) events b = (b, refl)
  keep_port-Opened (gave port) events b = (ap (λ ports. port ∷ ports) b, refl)

  open_port-Opened :
      (serial : Option ℕ) (events : List Event)
      → open_ports events ≡ as_list serial
      → let (r, t) = open_port pyserial serial (record { serial = serial; events = events }) in
        Opened r t
  unfolding open_port Opened
  open_port-Opened (some port) events b = (b, refl)
  open_port-Opened none events b = elim (Bool-cases pyserial.installed) [
    | inl h ↦ rw h (keep_port-Opened (pyserial.construct events) events b)
    | inr h ↦ rw h (b, refl)
  ]

  -- the body of the `try`
  Talked : Result Bytes → SerialSmpTransport → Type 0
  Talked (ok response) t = IsHeld t × (is_some t.serial ≡ true)
  Talked (err e) t = IsHeld t × (is_timeout_error e ≡ true → is_some t.serial ≡ true)

  held_Talked :
      (r : Result Bytes) (t : SerialSmpTransport) → IsHeld t → is_some t.serial ≡ true → Talked r t
  unfolding Talked
  held_Talked (ok response) t b h = (b, h)
  held_Talked (err e) t b h = (b, λ _. h)

  after_open :
      (packet : Bytes) (r : Result ℕ) (t : SerialSmpTransport)
      → Opened r t
      → let (r', t') = continue r (talk pyserial framing packet) t in Talked r' t'
  unfolding Opened Talked
  after_open packet (err e) t (b, h) = (b, λ k. cc)
  after_open packet (ok port) t (b, h) =
      let (same, balanced) = (talk-Keeps packet port).kept t in
      held_Talked _ _ (balanced b) (ap is_some same ∙ h)

  close-Ended :
      (e : Exc) (serial : Option ℕ) (events : List Event)
      → open_ports events ≡ as_list serial
      → let (r, t) =
          (close_serial pyserial serial >> λ u. (err (transport (message e)), u))
            (record { serial = none; events = events }) in
        IsHeld t × Ended r t
  unfolding close_serial open_ports
  close-Ended e none events b = (b, inr (refl, inl (message e, refl)))
  close-Ended e (some port) events b = by_close (pyserial.close events port) refl
    where
      none_left : open_ports (closed port ∷ events) ≡ []
      none_left = ground (arith, b)

      by_close :
          (o : Outcome (Unit {0}))
          → pyserial.close events port ≡ o
          → let (r, t) =
              continue {S = SerialSmpTransport} {A = Unit {0}} {B = Bytes}
                (result_of o)
                (λ _ u. (err (transport (message e)), u))
                (record { serial = none; events = closed port ∷ events }) in
            IsHeld t × Ended r t
      by_close (gave _) q = (none_left, inr (refl, inl (message e, refl)))
      by_close (raised m) q = (none_left, inr (refl, inr (m, events, port, refl, q)))

  give_up-Ended :
      (e : Exc) (t : SerialSmpTransport)
      → Talked (err e) t
      → let (r, t') = give_up pyserial framing e t in IsHeld t' × Ended r t'
  unfolding give_up close Talked
  give_up-Ended e t (b, h) = elim (Bool-cases (is_timeout_error e)) [
    | inl k ↦ rw k (b, inl (k, h k))
    | inr k ↦ rw k (close-Ended e t.serial t.events b)
  ]

  handled-Ended :
      (r : Result Bytes) (t : SerialSmpTransport)
      → Talked r t
      → let (r', t') = handled r (give_up pyserial framing) t in IsHeld t' × Ended r' t'
  unfolding Talked
  handled-Ended (ok response) t (b, h) = (b, h)
  handled-Ended (err e) t h = give_up-Ended e t h

  -- Where no port is open but the one that the transport holds, it is so after an exchange: a port
  -- that was opened is the one that is held, or that very port has been closed. After a response
  -- or a timeout a port is held; after any other failure none is, and what is raised is a
  -- RelayTransportError, unless closing the port raised an exception itself.
  pub exchange-Ended :
      (packet : Bytes) (t : SerialSmpTransport)
      → IsHeld t
      → let (r, t') = exchange pyserial framing packet t in IsHeld t' × Ended r t'
  unfolding exchange open_serial
  exchange-Ended packet t b =
      handled-Ended _ _ (after_open packet _ _ (open_port-Opened t.serial t.events b))
