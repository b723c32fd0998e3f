-- ===== src/RpcSmoke/Run/Passed.antt =====
-- What a smoke test that passed has written.
use rp2350_relay_6ch.Prelude.{
  ◌≡◌, refl, sym, ap, ◌∙◌, subst, Bool, true, false, String, Bytes, List, [], arith, ◌∷◌, ◌++◌,
}
use rp2350_relay_6ch.Prelude.Int.{pos}
use rp2350_relay_6ch.Errors.{Result, ok, err}
use rp2350_relay_6ch.Value.{Python, Fields, get, equals_int}
use rp2350_relay_6ch.Action.{Act, ◌>>=◌, continue}
use rp2350_relay_6ch.RpcSmoke.Cbor.{Utf8}
use rp2350_relay_6ch.RpcSmoke.Frames.{Base64}
use rp2350_relay_6ch.RpcSmoke.Rpc.{Port, Action, asked, command_id, call}
use rp2350_relay_6ch.RpcSmoke.Rpc.Answered.{Requests, call_checked}
use rp2350_relay_6ch.RpcSmoke.Run.{require, require_identity, require_refused, run_smoke}

-- the requests of the smoke test, in their order
abbrev pub script : List Action
script =
    Action.identity
    ∷ Action.capabilities
    ∷ Action.status
    ∷ Action.set (pos 0) true
    ∷ Action.get (pos 0)
    ∷ Action.set (pos 0) false
    ∷ Action.set_all (pos 0x21)
    ∷ Action.off_all
    ∷ Action.pulse (pos 0) (pos 100)
    ∷ Action.get (pos 0)
    ∷ Action.invalid_channel
    ∷ Action.invalid_pulse
    ∷ Action.off_all
    ∷ []

module _ (py : Python) (utf8 : Utf8) (base64 : Base64) (port : Port) where
  -- the frames that were written for the requests
  unfoldable pub Wrote : List Action → List Bytes → List Bytes → Type 0
  Wrote [] frames frames' = frames' ≡ frames
  Wrote (action ∷ actions) frames frames' =
      (frame : Bytes) × Requests py utf8 base64 port (asked action).command (asked action).op
        (asked action).payload frame
      × Wrote actions (frame ∷ frames) frames'

  Wrote-append :
      (xs ys : List Action) (s t u : List Bytes)
      → Wrote xs s t
      → Wrote ys t u
      → Wrote (xs ++ ys) s u
  unfolding Wrote
  Wrote-append [] ys s t u e w = subst (λ v. Wrote ys v u) e w
  Wrote-append (x ∷ xs) ys s t u (frame, r, v) w =
      (frame, r, Wrote-append xs ys (frame ∷ s) t u v w)

  -- Where a part passes, it has written the frames of these requests, and Q holds after it.
  record Writes {A : Type 0} (m : Act (List Bytes) A) (actions : List Action)
      (Q : List Bytes → Type 0) : Type 0 where
    wrote : (s t : List Bytes) (a : A) → m s ≡ (ok a, t) → Wrote actions s t × Q t

  abbrev Anything : List Bytes → Type 0
  Anything s = Unit

  -- a part that writes nothing
  silent :
      {A : Type 0} (m : Act (List Bytes) A)
      → ((s : List Bytes) → (m s).1 ≡ s)
      → Writes m [] Anything
  unfolding Wrote
  silent m still = record { wrote = λ s t a e. (sym (ap (λ r. r.1) e) ∙ still s, tt) }

  continue-Writes :
      {A B : Type 0} {f : A → Act (List Bytes) B} (xs ys : List Action) {Q : List Bytes → Type 0}
      (s t u : List Bytes) (b : B) (r : Result A)
      → ((a : A) → r ≡ ok a → Wrote xs s t)
      → ((a : A) → Writes (f a) ys Q)
      → continue r f t ≡ (ok b, u)
      → Wrote (xs ++ ys) s u × Q u
  continue-Writes xs ys s t u b (ok a) w go e =
      let (w', q) = (go a).wrote t u b e in (Wrote-append xs ys s t u (w a refl) w', q)
  continue-Writes xs ys s t u b (err x) w go e = cc

  then_writes :
      {A B : Type 0} {m : Act (List Bytes) A} {f : A → Act (List Bytes) B} {xs ys : List Action}
      {Q : List Bytes → Type 0}
      → Writes m xs Anything
      → ((a : A) → Writes (f a) ys Q)
      → Writes (m >>= f) (xs ++ ys) Q
  then_writes {m = m} p go = record {
    wrote = λ s u b e.
        continue-Writes _ _ s (m s).1 u b (m s).0
          (λ a h. (p.wrote s (m s).1 a (ap (λ r. (r, (m s).1)) h)).0) go e;
  }

  abbrev ask : Action → Act (List Bytes) Fields
  ask action =
      call py utf8 base64 port (asked action).command (asked action).op (asked action).payload

  asks : (action : Action) → Writes (ask action) (action ∷ []) Anything
  unfolding Wrote
  asks action = record {
    wrote = λ s t a e.
        let (frame, lines, response, body, requests, written, answered, decoded, heads, read) =
          call_checked py utf8 base64 port _ _ _ a s t e in
        ((frame, requests, written), tt);
  }

  requires : (b : Bool) (m : String) → Writes (require b m) [] Anything
  requires b m = silent (require b m) (still b)
    where
      still : (b : Bool) (s : List Bytes) → (require b m s).1 ≡ s
      still true s = refl
      still false s = refl

  identity_silent : (who : Fields) → Writes (require_identity py utf8 base64 port who) [] Anything
  unfolding require_identity
  identity_silent who = silent (require_identity py utf8 base64 port who) (λ s. ground arith)

  refused_silent :
      (m : String) (response : Fields)
      → Writes (require_refused py utf8 base64 port m response) [] Anything
  unfolding require_refused
  refused_silent m response =
      silent (require_refused py utf8 base64 port m response) (λ s. ground arith)

  -- the last answer is that of all-off, with the state 0
  abbrev pub IsOff : List Bytes → Type 0
  IsOff frames =
      (final : Fields) × (written : List Bytes) × (ask Action.off_all written ≡ (ok final, frames))
      × (equals_int (get "state" final) (pos 0) ≡ true)

  required :
      (b : Bool) (m : String) (s t : List Bytes) (a : Unit {0})
      → require b m s ≡ (ok a, t)
      → (b ≡ true) × (s ≡ t)
  required true m s t a e = (refl, ap (λ r. r.1) e)
  required false m s t a e = cc

  abbrev require_off : Fields → Act (List Bytes) (Unit {0})
  require_off final =
      require (equals_int (get "state" final) (pos 0)) "off_all did not leave relays off"

  answered-IsOff :
      (r : Result Fields) (s t u : List Bytes) (a : Unit {0})
      → ask Action.off_all s ≡ (r, t)
      → continue r require_off t ≡ (ok a, u)
      → Wrote (Action.off_all ∷ []) s u × IsOff u
  answered-IsOff (err x) s t u a q e = cc
  answered-IsOff (ok final) s t u a q e =
      let (off, same) = required _ _ t u a e in
      subst (λ v. Wrote (Action.off_all ∷ []) s v × IsOff v) same
        (((asks Action.off_all).wrote s t final q).0, (final, s, q, off))

  all-IsOff_last :
      Writes
        (ask Action.off_all >>= λ final.
          require (equals_int (get "state" final) (pos 0)) "off_all did not leave relays off")
        (Action.off_all ∷ [])
        IsOff
  all-IsOff_last = record { wrote = λ s u a e. answered-IsOff _ s _ u a refl e }

  -- A smoke test that passed has written the frames of thirteen requests, in the order of the
  -- script and nothing else, and the answer to the last of them, all-off, had the state 0.
  pub run_smoke_passed :
      (frames frames' : List Bytes)
      → run_smoke py utf8 base64 port frames ≡ (ok tt, frames')
      → Wrote script frames frames' × IsOff frames'
  unfolding run_smoke asked command_id
  run_smoke_passed frames frames' e = writes.wrote frames frames' tt e
    where
      writes : Writes (run_smoke py utf8 base64 port) script IsOff
      writes = then_writes (asks Action.identity) (λ who. then_writes (identity_silent who) (λ _.
          then_writes (asks Action.capabilities) (λ _. then_writes (requires _ _) (λ _.
            then_writes (asks Action.status) (λ _. then_writes (requires _ _) (λ _.
              then_writes (asks (Action.set (pos 0) true)) (λ _.
                then_writes (asks (Action.get (pos 0))) (λ _.
                  then_writes (asks (Action.set (pos 0) false)) (λ _.
                    then_writes (asks (Action.set_all (pos 0x21))) (λ _.
                      then_writes (asks Action.off_all) (λ _.
                        then_writes (asks (Action.pulse (pos 0) (pos 100))) (λ _.
                          then_writes (asks (Action.get (pos 0))) (λ _.
                            then_writes (asks Action.invalid_channel) (λ r.
                              then_writes (refused_silent "invalid channel was not rejected" r)
                                (λ _. then_writes (asks Action.invalid_pulse) (λ r.
                                  then_writes (refused_silent "invalid pulse was not rejected" r)
                                    (λ _. all-IsOff_last)))))))))))))))))
