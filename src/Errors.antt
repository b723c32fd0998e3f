-- ===== src/Errors.antt =====
-- The exceptions of host/rp2350_relay_6ch/exceptions.py, and code that may raise one.
-- A call returns a value or an exception; a method of an object also gives the object back, since
-- what was written before a raise stays written.
use rp2350_relay_6ch.Prelude.{◌≡◌, refl, ◌⊎◌, inl, inr, String, Bool, true, false}
use rp2350_relay_6ch.Prelude.Int.{ℤ}

-- One constructor for each class; `foreign` is an exception that is no RelayError.
pub data Exc : Type 0 where
  relay : String → Exc
  transport : String → Exc
  timeout : String → Exc
  protocol : String → Exc
  validation : String → Exc
  device : ℤ → ℤ → String → Exc
  foreign : String → Exc

-- `str(exc)`
abbrev pub message : Exc → String
message (relay m) = m
message (transport m) = m
message (timeout m) = m
message (protocol m) = m
message (validation m) = m
message (device _ _ m) = m
message (foreign m) = m

-- `isinstance(exc, RelayError)`
abbrev pub is_relay_error : Exc → Bool
is_relay_error (foreign _) = false
is_relay_error _ = true

-- `isinstance(exc, RelayTransportError)`: RelayTimeoutError is a subclass.
abbrev pub is_transport_error : Exc → Bool
is_transport_error (transport _) = true
is_transport_error (timeout _) = true
is_transport_error _ = false

abbrev pub is_timeout_error : Exc → Bool
is_timeout_error (timeout _) = true
is_timeout_error _ = false

pub data Result {ℓ} (A : Type ℓ) : Type ℓ where
  ok : A → Result A
  err : Exc → Result A

abbrev pub Done : Type 0
Done = Result (Unit {0})

abbrev pub and_then {ℓ κ} : {A : Type ℓ} {B : Type κ} → Result A → (A → Result B) → Result B
and_then (ok a) f = f a
and_then (err e) f = err e

-- Inversion of a sequence that succeeded.
pub and_then-eq-ok {ℓ κ} :
    {A : Type ℓ} {B : Type κ} (r : Result A) (f : A → Result B) {b : B}
    → and_then r f ≡ ok b
    → (a : A) × (r ≡ ok a) × (f a ≡ ok b)
and_then-eq-ok (ok a) f h = (a, refl, h)
and_then-eq-ok (err e) f h = cc

-- To split on a result and keep the equation.
pub Result-cases {ℓ} :
    {A : Type ℓ} (r : Result A) → ((a : A) × (r ≡ ok a)) ⊎ ((e : Exc) × (r ≡ err e))
Result-cases (ok a) = inl (a, refl)
Result-cases (err e) = inr (e, refl)
