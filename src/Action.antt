-- ===== src/Action.antt =====
-- Methods that change an object and may raise: the object comes back beside the exception too.
use rp2350_relay_6ch.Errors.{Exc, Result, ok, err, is_relay_error}
use rp2350_relay_6ch.Prelude.{if◌then◌else◌, ◌≡◌, refl, ap}

abbrev pub Act : Type 0 → Type 0 → Type 0
Act S A = S → Result A × S

module _ {S A : Type 0} where
  abbrev pub pure : A → Act S A
  pure a s = (ok a, s)

  abbrev pub raise : Exc → Act S A
  raise e s = (err e, s)

  abbrev pub lift : Result A → Act S A
  lift r s = (r, s)

  abbrev pub gets : (S → A) → Act S A
  gets f s = (ok (f s), s)

  -- `except Exception as exc`, with its handler
  abbrev pub handled : Result A → (Exc → Act S A) → Act S A
  handled (ok a) h = pure a
  handled (err e) h = h e

  abbrev pub catch : Act S A → (Exc → Act S A) → Act S A
  catch m h s = let (r, s') = m s in handled r h s'

abbrev pub modify : {S : Type 0} → (S → S) → Act S (Unit {0})
modify f s = (ok tt, f s)

module _ {S A B : Type 0} where
  abbrev pub continue : Result A → (A → Act S B) → Act S B
  continue (ok a) f s = f a s
  continue (err e) f s = (err e, s)

  infixl 5 ◌>>=◌ ◌>>◌
  abbrev pub ◌>>=◌ : Act S A → (A → Act S B) → Act S B
  ◌>>=◌ m f s = let (r, s') = m s in continue r f s'

  abbrev pub ◌>>◌ : Act S A → Act S B → Act S B
  m >> k = m >>= λ _. k

-- `try: m except Exception: pass`
abbrev pub swallow : {S : Type 0} → Act S (Unit {0}) → Act S (Unit {0})
swallow m = catch m (λ _. pure tt)

-- `try: m except RelayError: pass`
abbrev pub swallow_relay : {S A : Type 0} → Act S A → Act S (Unit {0})
swallow_relay m s =
    let (r, s') = m s in
    elim r [ ok _ ↦ (ok tt, s') | err e ↦ if is_relay_error e then (ok tt, s') else (err e, s') ]

-- Rules for a postcondition of the result and the object: one for each way to go on.
module _ {S A B : Type 0} (Q : Result A → S → Type 0) (R : Result B → S → Type 0) where
  pub continue_meets :
      (r : Result A) (s : S) (k : A → Act S B)
      → Q r s
      → ((a : A) (s' : S) → Q (ok a) s' → R (k a s').0 (k a s').1)
      → ((e : Exc) (s' : S) → Q (err e) s' → R (err e) s')
      → R (continue r k s).0 (continue r k s).1
  continue_meets (ok a) s k q go stop = go a s q
  continue_meets (err e) s k q go stop = stop e s q

module _ {S A : Type 0} (Q R : Result A → S → Type 0) where
  pub handled_meets :
      (r : Result A) (s : S) (h : Exc → Act S A)
      → Q r s
      → ((a : A) (s' : S) → Q (ok a) s' → R (ok a) s')
      → ((e : Exc) (s' : S) → Q (err e) s' → R (h e s').0 (h e s').1)
      → R (handled r h s).0 (handled r h s).1
  handled_meets (ok a) s h q go stop = go a s q
  handled_meets (err e) s h q go stop = stop e s q

-- A sequence that succeeded went on from the result of its first part.
module _ {S A B P : Type 0} where
  pub went_on :
      (r : Result A) (f : A → Act S B) (s : S) {b : B} {s' : S}
      → continue r f s ≡ (ok b, s')
      → ((a : A) → r ≡ ok a → f a s ≡ (ok b, s') → P)
      → P
  went_on (ok a) f s h go = go a refl h
  went_on (err e) f s h go = cc

  pub went_on_from :
      (m : Act S A) (f : A → Act S B) (s : S) {b : B} {s' : S}
      → (m >>= f) s ≡ (ok b, s')
      → ((a : A) (t : S) → m s ≡ (ok a, t) → f a t ≡ (ok b, s') → P)
      → P
  went_on_from m f s h go =
      went_on (m s).0 f (m s).1 h (λ a p q. go a (m s).1 (ap (λ (r : Result A). (r, (m s).1)) p) q)
