-- ===== src/Session/Keeps.antt =====
-- What every operation of a session keeps: the heartbeat runs for the client that is held, and
-- nothing that the user typed comes back.
pub mod Connect
pub mod Select
pub mod Closing
pub mod Line
use rp2350_relay_6ch.Prelude.{◌≤◌, ◌≡◌, Bool, true, false, length, is_some, if◌then◌else◌, arith}
use rp2350_relay_6ch.Errors.{Exc, Result, ok, err, is_relay_error}
use rp2350_relay_6ch.Action.{
  Act, pure, raise, lift, gets, modify, swallow, catch, handled, continue, ◌>>=◌, ◌>>◌,
}
use rp2350_relay_6ch.Session.World.{Session, note, Event, catch_relay, handled_relay}

-- A session is connected where it holds a client, and polls that client.
abbrev pub IsAligned : Session → Type 0
IsAligned s = (s.connected ≡ is_some s.client) × (s.heartbeat ≡ s.client)

abbrev pub Moves : Session → Session → Type 0
Moves s s' = (length s'.input ≤ length s.input) × (IsAligned s → IsAligned s')

pub record Keeps {A : Type 0} (m : Act Session A) : Type 0 where
  pub kept : (s : Session) → Moves s (m s).1

pub Moves-trans : (a b c : Session) → Moves a b → Moves b c → Moves a c
Moves-trans a b c p q = (omega (arith, p.0, q.0), λ v. q.1 (p.1 v))

module _ {A : Type 0} where
  pub pure-Keeps : (a : A) → Keeps {A = A} (pure a)
  pure-Keeps a = record { kept = λ s. (omega arith, λ v. v) }

  pub lift-Keeps : (r : Result A) → Keeps {A = A} (lift r)
  lift-Keeps r = record { kept = λ s. (omega arith, λ v. v) }

  pub gets-Keeps : (f : Session → A) → Keeps (gets f)
  gets-Keeps f = record { kept = λ s. (omega arith, λ v. v) }

  pub raise-Keeps : (e : Exc) → Keeps {A = A} (raise e)
  raise-Keeps e = record { kept = λ s. (omega arith, λ v. v) }

  pub if-Keeps :
      (b : Bool) (m k : Act Session A)
      → Keeps m
      → Keeps k
      → Keeps {A = A} (λ s. if b then m s else k s)
  if-Keeps true m k p q = p
  if-Keeps false m k p q = q

  pub choose-Keeps :
      (b : Bool) (m k : Act Session A) → Keeps m → Keeps k → Keeps (if b then m else k)
  choose-Keeps true m k p q = p
  choose-Keeps false m k p q = q

  handled_relay-Keeps :
      (r : Result A) (h : Exc → Act Session A)
      → ((e : Exc) → Keeps (h e))
      → Keeps (handled_relay r h)
  handled_relay-Keeps (ok a) h p = pure-Keeps a
  handled_relay-Keeps (err e) h p =
      if-Keeps (is_relay_error e) (h e) (raise e) (p e) (raise-Keeps e)

  handled-Keeps :
      (r : Result A) (h : Exc → Act Session A) → ((e : Exc) → Keeps (h e)) → Keeps (handled r h)
  handled-Keeps (ok a) h p = pure-Keeps a
  handled-Keeps (err e) h p = p e

  pub catch_relay-Keeps :
      (m : Act Session A) (h : Exc → Act Session A)
      → Keeps m
      → ((e : Exc) → Keeps (h e))
      → Keeps (catch_relay m h)
  catch_relay-Keeps m h p q = record {
    kept = λ s.
        Moves-trans s (m s).1 (handled_relay (m s).0 h (m s).1).1 (p.kept s)
          ((handled_relay-Keeps (m s).0 h q).kept (m s).1);
  }

  pub catch-Keeps :
      (m : Act Session A) (h : Exc → Act Session A)
      → Keeps m
      → ((e : Exc) → Keeps (h e))
      → Keeps (catch m h)
  catch-Keeps m h p q = record {
    kept = λ s.
        Moves-trans s (m s).1 (handled (m s).0 h (m s).1).1 (p.kept s)
          ((handled-Keeps (m s).0 h q).kept (m s).1);
  }

  -- a test of the state
  pub state-Keeps :
      (m : Session → Act Session A) → ((s : Session) → Keeps (m s)) → Keeps {A = A} (λ s. m s s)
  state-Keeps m p = record { kept = λ s. (p s).kept s }

module _ {A B : Type 0} where
  continue-Keeps :
      (r : Result A) (k : A → Act Session B)
      → ((a : A) → Keeps (k a))
      → Keeps {A = B} (λ s. continue r k s)
  continue-Keeps (ok a) k p = p a
  continue-Keeps (err e) k p = raise-Keeps e

  pub bind-Keeps :
      (m : Act Session A) (k : A → Act Session B)
      → Keeps m
      → ((a : A) → Keeps (k a))
      → Keeps (m >>= k)
  bind-Keeps m k p q = record {
    kept = λ s.
        Moves-trans s (m s).1 (continue (m s).0 k (m s).1).1 (p.kept s)
          ((continue-Keeps (m s).0 k q).kept (m s).1);
  }

  pub then-Keeps : (m : Act Session A) (k : Act Session B) → Keeps m → Keeps k → Keeps (m >> k)
  then-Keeps m k p q = bind-Keeps m (λ _. k) p (λ _. q)

  -- what goes on with the result, an exception too
  pub run-Keeps :
      (m : Act Session A) (k : Result A → Act Session B)
      → Keeps m
      → ((r : Result A) → Keeps (k r))
      → Keeps {A = B} (λ s. let (r, s') = m s in k r s')
  run-Keeps m k p q = record {
    kept = λ s. Moves-trans s (m s).1 (k (m s).0 (m s).1).1 (p.kept s) ((q (m s).0).kept (m s).1);
  }

pub swallow-Keeps : (m : Act Session (Unit {0})) → Keeps m → Keeps (swallow m)
swallow-Keeps m p = catch-Keeps m (λ _. pure tt) p (λ _. pure-Keeps tt)

pub note-Keeps : (e : Event) → Keeps (modify (note e))
note-Keeps e = record { kept = λ s. (omega arith, λ v. v) }
