-- ===== src/Session/Accepted.antt =====
-- What a line asks of the client, the client accepts.
use rp2350_relay_6ch.Prelude.{
  zero, suc, ◌≡◌, inl, inr, refl, String, Bool, true, false, Bool-cases, Option, none, some, List,
  [], ◌∷◌, if◌then◌else◌, str_eq, arith,
}
use rp2350_relay_6ch.Prelude.Int.{ℤ, pos, negsuc}
use rp2350_relay_6ch.Errors.{Done, Exc, Result, ok, err, foreign, and_then, and_then-eq-ok}
use rp2350_relay_6ch.Value.{Python, int, check_int}
use rp2350_relay_6ch.Client.{
  Call, get_relay, set_relay, set_all_relays, pulse_relay, validate_channel, validate_state_mask,
  validate_on,
}
use rp2350_relay_6ch.Cli.{parse_state}
use rp2350_relay_6ch.Session.World.{Shell}
use rp2350_relay_6ch.Session.Commands.{
  Work, calling, of_parsed, channel_index, plain_calls, plain_call, expect_arg_count, parse_int_arg,
  parse_channel_arg, parse_state_arg, parse_on_off_arg, with_none, with_one, with_two, other_work,
  relay_work,
}

-- the client's validation of the arguments; the duration of a pulse is not read here
abbrev pub Accepted : Call → Type 0
Accepted (get_relay channel) = validate_channel channel ≡ ok tt
Accepted (set_relay channel on) = (validate_channel channel ≡ ok tt) × (validate_on on ≡ ok tt)
Accepted (set_all_relays state) = validate_state_mask state ≡ ok tt
Accepted (pulse_relay channel duration) = validate_channel channel ≡ ok tt
Accepted m = Unit {0}

abbrev pub IsAccepted : Result Work → Type 0
IsAccepted (ok (calling m)) = Accepted m
IsAccepted r = Unit {0}

record Fits (r : Result Work) : Type 0 where
  fits : IsAccepted r

if-Fits : (b : Bool) (x y : Result Work) → Fits x → Fits y → Fits (if b then x else y)
if-Fits true x y p q = p
if-Fits false x y p q = q

and_then-Fits :
    {A : Type 0} (r : Result A) (f : A → Result Work)
    → ((a : A) → r ≡ ok a → Fits (f a))
    → Fits (and_then r f)
and_then-Fits (ok a) f h = h a refl
and_then-Fits (err e) f h = record { fits = tt }

unfit : (e : Exc) → Fits (err e)
unfit e = record { fits = tt }

-- the count of the words was wrong, or it is an IndexError
refused-Fits : (d : Done) (e : Exc) → Fits (and_then d (λ _. err e))
refused-Fits (ok _) e = unfit e
refused-Fits (err _) e = unfit _

abbrev AllAccepted : List (String × Call) → Type 0
AllAccepted [] = Unit {0}
AllAccepted (entry ∷ table) = Accepted entry.1 × AllAccepted table

abbrev FoundAccepted : Option Call → Type 0
FoundAccepted none = Unit {0}
FoundAccepted (some m) = Accepted m

plain_call-Accepted :
    (command : String) (table : List (String × Call))
    → AllAccepted table
    → FoundAccepted (plain_call command table)
unfolding plain_call
plain_call-Accepted command [] h = tt
plain_call-Accepted command (entry ∷ table) h = elim (Bool-cases (str_eq command entry.0)) [
  | inl k ↦ rw k h.0
  | inr k ↦ rw k (plain_call-Accepted command table h.1)
]

channel_index-Accepted : (n k : ℤ) → channel_index n ≡ ok k → validate_channel (int k) ≡ ok tt
unfolding validate_channel check_int
channel_index-Accepted (pos zero) k h = ground (arith, h)
channel_index-Accepted (pos (suc n)) k h = ground (arith, h)
channel_index-Accepted (negsuc n) k h = ground (arith, h)

plain_calls-AllAccepted : AllAccepted plain_calls
plain_calls-AllAccepted = (tt, (tt, (tt, (tt, (tt, (tt, (tt, (tt, (tt, (tt, tt))))))))))

module _ (py : Python) where
  parse_channel_arg-Accepted :
      (text : String) (k : ℤ) → parse_channel_arg py text ≡ ok k → validate_channel (int k) ≡ ok tt
  unfolding parse_channel_arg
  parse_channel_arg-Accepted text k h =
      let (n, e, found) = and_then-eq-ok (parse_int_arg py text) channel_index h in
      channel_index-Accepted n k found

  parse_state_arg-Accepted :
      (text : String) (k : ℤ) → parse_state_arg py text ≡ ok k → validate_state_mask (int k) ≡ ok tt
  unfolding parse_state_arg parse_state of_parsed validate_state_mask check_int
  parse_state_arg-Accepted text k h = ground (arith, h)

  with_one-Fits :
      (command : String) (args : List String) (k : String → Result Work)
      → ((a : String) → Fits (k a))
      → Fits (with_one py command args k)
  unfolding with_one
  with_one-Fits command (a ∷ []) k h = h a
  with_one-Fits command [] k h =
      refused-Fits (expect_arg_count py command [] 1) (foreign "IndexError")
  with_one-Fits command (a ∷ b ∷ args) k h =
      refused-Fits (expect_arg_count py command (a ∷ b ∷ args) 1) (foreign "IndexError")

  with_two-Fits :
      (command : String) (args : List String) (k : String → String → Result Work)
      → ((a b : String) → Fits (k a b))
      → Fits (with_two py command args k)
  unfolding with_two
  with_two-Fits command (a ∷ b ∷ []) k h = h a b
  with_two-Fits command [] k h =
      refused-Fits (expect_arg_count py command [] 2) (foreign "IndexError")
  with_two-Fits command (a ∷ []) k h =
      refused-Fits (expect_arg_count py command (a ∷ []) 2) (foreign "IndexError")
  with_two-Fits command (a ∷ b ∷ c ∷ args) k h =
      refused-Fits (expect_arg_count py command (a ∷ b ∷ c ∷ args) 2) (foreign "IndexError")

  other_work-Fits :
      (shell : Shell) (command : String) (args : List String)
      → Fits (other_work py shell command args)
  unfolding other_work validate_on
  other_work-Fits shell command args =
      if-Fits (str_eq command "get") _ _
        (with_one-Fits command args _ (λ a.
          and_then-Fits (parse_channel_arg py a) _
            (λ k e. record { fits = parse_channel_arg-Accepted a k e })))
        (if-Fits (str_eq command "set") _ _
          (with_two-Fits command args _ (λ a b. and_then-Fits (parse_channel_arg py a) _ (λ k e.
            and_then-Fits (parse_on_off_arg py b) _
              (λ on _. record { fits = (parse_channel_arg-Accepted a k e, refl) }))))
          (if-Fits (str_eq command "set-all") _ _
            (with_one-Fits command args _ (λ a.
              and_then-Fits (parse_state_arg py a) _
                (λ k e. record { fits = parse_state_arg-Accepted a k e })))
            (if-Fits (str_eq command "pulse") _ _
              (with_two-Fits command args _ (λ a b. and_then-Fits (parse_channel_arg py a) _ (λ k e.
                and_then-Fits (parse_int_arg py b) _
                  (λ duration _. record { fits = parse_channel_arg-Accepted a k e }))))
              (if-Fits (str_eq command "smoke") _ _
                (and_then-Fits (shell.parse_pulse_ms args) _ (λ _ _. record { fits = tt }))
                (unfit _)))))

  found-Fits :
      (shell : Shell) (command : String) (args : List String) (o : Option Call)
      → FoundAccepted o
      → Fits (elim o [
        | some m ↦ with_none py command args (calling m)
        | none ↦ other_work py shell command args
      ])
  unfolding with_none
  found-Fits shell command args none h = other_work-Fits shell command args
  found-Fits shell command args (some m) h =
      and_then-Fits (expect_arg_count py command args 0) _ (λ _ _. record { fits = h })

  -- Whatever words the user types, the call that they are read as has a channel, a state mask and
  -- a state that the client's own validation accepts; the duration of a pulse is left to it.
  pub relay_work-IsAccepted :
      (shell : Shell) (command : String) (args : List String)
      → IsAccepted (relay_work py shell command args)
  unfolding relay_work
  relay_work-IsAccepted shell command args =
      (found-Fits shell command args (plain_call command plain_calls)
        (plain_call-Accepted command plain_calls plain_calls-AllAccepted)).fits
