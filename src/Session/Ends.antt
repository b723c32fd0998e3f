-- ===== src/Session/Ends.antt =====
-- A session stays aligned for as long as it runs, and it ends.
use rp2350_relay_6ch.Prelude.{
  ℕ, zero, suc, ◌≤◌, ◌<◌, ◌≡◌, ◌≢◌, refl, String, Bool, true, false, List, [], ◌∷◌, length,
  if◌then◌else◌, arith,
}
use rp2350_relay_6ch.Errors.{Result, ok, err}
use rp2350_relay_6ch.Value.{Python, Fields}
use rp2350_relay_6ch.Action.{Act, pure, continue, ◌>>◌}
use rp2350_relay_6ch.Session.World.{
  Session, SessionWorld, Shell, prompted, Input, SessionOptions, new_session,
}
use rp2350_relay_6ch.Session.Select.{
  ConnectResult, connected, failed, cancelled, connect_from_options,
}
use rp2350_relay_6ch.Session.Closing.{handle_exit}
use rp2350_relay_6ch.Session.Run.{
  Turn, turn_of, typed, interrupted, ended, prompt, read_input, take_turn, turn, started, run_loop,
  run,
}
use rp2350_relay_6ch.Session.Keeps.{
  Keeps, IsAligned, pure-Keeps, choose-Keeps, if-Keeps, state-Keeps, bind-Keeps, then-Keeps,
}
use rp2350_relay_6ch.Session.Keeps.Connect.{say-Keeps}
use rp2350_relay_6ch.Session.Keeps.Select.{connect_from_options-Keeps}
use rp2350_relay_6ch.Session.Keeps.Closing.{handle_exit-Keeps}
use rp2350_relay_6ch.Session.Keeps.Line.{handle_line-Keeps}

stops :
    (r : Result (Unit {0})) (s : Session) → (continue r (λ _. pure {A = Bool} false) s).0 ≢ ok true
stops (ok _) s h = ground (arith, h)
stops (err e) s h = ground (arith, h)

stop-stops :
    (m : Act Session (Unit {0})) (s : Session) → ((m >> pure {A = Bool} false) s).0 ≢ ok true
stop-stops m s = stops (m s).0 (m s).1

module _ (world : SessionWorld) (py : Python) (shell : Shell) (dumps : Fields → String) where
  read_input-Keeps : (text : String) → Keeps (read_input text)
  unfolding read_input
  read_input-Keeps text = record { kept = λ s. ground arith }

  take_turn-Keeps : (t : Turn) → Keeps (take_turn world py shell dumps t)
  unfolding take_turn
  take_turn-Keeps (typed text) =
      then-Keeps _ _ (handle_line-Keeps world py shell dumps text) (pure-Keeps true)
  take_turn-Keeps interrupted = then-Keeps _ _ (say-Keeps world py _) (pure-Keeps true)
  take_turn-Keeps ended = then-Keeps _ _ (handle_exit-Keeps world py false) (pure-Keeps false)

  turn-Keeps : Keeps (turn world py shell dumps)
  unfolding turn
  turn-Keeps = state-Keeps _ (λ s. bind-Keeps _ _ (read_input-Keeps _) take_turn-Keeps)

  run_loop-Keeps : (n : ℕ) → Keeps (run_loop world py shell dumps n)
  unfolding run_loop
  run_loop-Keeps zero = record { kept = λ s. (omega arith, λ v. v) }
  run_loop-Keeps (suc n) = state-Keeps _ (λ s.
      if-Keeps s.should_exit _ _ (pure-Keeps true)
        (bind-Keeps _ _ turn-Keeps (λ b. choose-Keeps b _ _ (run_loop-Keeps n) (pure-Keeps true))))

  started-Keeps : (n : ℕ) (r : ConnectResult) → Keeps (started world py shell dumps n r)
  unfolding started
  started-Keeps n connected = run_loop-Keeps n
  started-Keeps n failed = then-Keeps _ _ (say-Keeps world py _) (run_loop-Keeps n)
  started-Keeps n cancelled = pure-Keeps true

  run-Keeps : (options : SessionOptions) (n : ℕ) → Keeps (run world py shell dumps options n)
  unfolding run
  run-Keeps options n =
      bind-Keeps _ _ (connect_from_options-Keeps world py options true) (started-Keeps n)

  -- However many turns a session has taken, whatever the user typed, the devices answered and the
  -- ports did, and also where it was ended by an exception: it is connected exactly where it holds
  -- a client, and its heartbeat polls that client and no other.
  pub run-IsAligned :
      (options : SessionOptions) (input : List Input) (turns : ℕ)
      → IsAligned (run world py shell dumps options turns (new_session options input)).1
  run-IsAligned options input turns =
      ((run-Keeps options turns).kept (new_session options input)).1 (refl, refl)

  -- a turn that lets the loop go on has taken something that the user typed
  turn_on-takes :
      (s : Session) (input : List Input)
      → let (r, s') = turn world py shell dumps (record s { input = input }) in
        r ≡ ok true → suc (length s'.input) ≤ length input
  unfolding turn read_input take_turn
  turn_on-takes s [] h = absurd (
      stop-stops (handle_exit world py false)
        (record s {
          input = [];
          trace = prompted (prompt shell.color (record s { input = [] })) ∷ s.trace;
        })
        h)
  turn_on-takes s (i ∷ input) h =
      let s' : Session = record s {
        input = input;
        trace = prompted (prompt shell.color (record s { input = i ∷ input })) ∷ s.trace;
      } in
      omega (arith, ((take_turn-Keeps (turn_of i)).kept s').0)

  abbrev go_on : ℕ → Bool → Act Session Bool
  go_on n goes_on = if goes_on then run_loop world py shell dumps n else pure true

  -- one end for `n` turns and for `m`
  abbrev IsEnd : Result Bool × Session → Result Bool × Session → Type 0
  IsEnd x y = (x.0 ≢ ok false) × (y ≡ x)

  module _ (n m : ℕ) where
    go_on-ends :
        (r : Result Bool) (s : Session)
        → (r ≡ ok true → length s.input < n)
        → ((t : Session)
            → length t.input < n
            → IsEnd (run_loop world py shell dumps n t) (run_loop world py shell dumps m t))
        → IsEnd (continue r (go_on n) s) (continue r (go_on m) s)
    go_on-ends (ok true) s h ih = ih s (h refl)
    go_on-ends (ok false) s h ih = (λ e. ground (arith, e), refl)
    go_on-ends (err e) s h ih = (λ e. ground (arith, e), refl)

    step-ends :
        (b : Bool) (s : Session) (x y : Result Bool × Session)
        → IsEnd x y
        → IsEnd (if b then (ok true, s) else x) (if b then (ok true, s) else y)
    step-ends true s x y h = (λ e. ground (arith, e), refl)
    step-ends false s x y h = h

  run_loop-ends :
      (n m : ℕ) (s : Session)
      → length s.input < n
      → n ≤ m
      → IsEnd (run_loop world py shell dumps n s) (run_loop world py shell dumps m s)
  unfolding run_loop
  run_loop-ends zero m s h l = absurd (omega (arith, h))
  run_loop-ends (suc n) zero s h l = absurd (omega (arith, l))
  run_loop-ends (suc n) (suc m) s h l =
      let next = turn world py shell dumps s in
      step-ends n m s.should_exit s (continue next.0 (go_on n) next.1)
        (continue next.0 (go_on m) next.1)
        (go_on-ends n m next.0 next.1 (λ t. omega (arith, h, turn_on-takes s s.input t))
          (λ t k. run_loop-ends n m t k (omega (arith, l))))

  started-ends :
      (n m : ℕ) (r : ConnectResult) (s : Session)
      → length s.input < n
      → n ≤ m
      → IsEnd (started world py shell dumps n r s) (started world py shell dumps m r s)
  unfolding started
  started-ends n m connected s h l = run_loop-ends n m s h l
  started-ends n m failed s h l = run_loop-ends n m _ h l
  started-ends n m cancelled s h l = (λ e. ground (arith, e), refl)

  connected-ends :
      (n m : ℕ) (r : Result ConnectResult) (s : Session)
      → length s.input < n
      → n ≤ m
      → IsEnd
          (continue r (started world py shell dumps n) s)
          (continue r (started world py shell dumps m) s)
  connected-ends n m (ok r) s h l = started-ends n m r s h l
  connected-ends n m (err e) s h l = (λ e. ground (arith, e), refl)

  -- A session ends: after at most one turn more than what the user types (lines, interrupts and
  -- ends of the input), its loop has come to its end or was ended by an exception, and no turn follows, whatever the
  -- world answers.
  pub run-ends :
      (options : SessionOptions) (input : List Input) (turns : ℕ)
      → length input < turns
      → let s = new_session options input in
        let last = run world py shell dumps options (suc (length input)) s in
        (last.0 ≢ ok false) × (run world py shell dumps options turns s ≡ last)
  unfolding run
  run-ends options input turns h =
      let s : Session = new_session options input in
      let r = connect_from_options world py options true s in
      connected-ends (suc (length input)) turns r.0 r.1
        (omega (arith, ((connect_from_options-Keeps world py options true).kept s).0))
        (omega (arith, h))
