-- ===== src/Requests/Accepted.antt =====
-- What a request that was accepted asks of the device.
use rp2350_relay_6ch.Prelude.{subst, [], ◌∷◌, ◌≡◌, refl, ◌⊎◌, inl, inr, ℕ}
use rp2350_relay_6ch.Errors.{Result, Done, ok, err, and_then}
use rp2350_relay_6ch.Value.{Python, Value, Fields, get, get_or, lookup, obj, end}
use rp2350_relay_6ch.Command.{Command}
use rp2350_relay_6ch.Requests.{
  Request, parse_payload, validate_args, read_id, read_command, read_args, require_keys,
  validate_channel, validate_on, validate_state, validate_duration,
}
use rp2350_relay_6ch.Requests.Strict.{
  IsPlain, validate_channel-Decides, validate_on-Decides, validate_state-Decides,
  validate_duration-Decides,
}
use rp2350_relay_6ch.Client.{Call}
use rp2350_relay_6ch.Client.Arguments.{Decides}
use rp2350_relay_6ch.Daemon.Serve.{device_call}

Decides-ok : {P : Type 0} (r : Done) → Decides r P → r ≡ ok tt → P
Decides-ok r (inl (e, p)) h = p
Decides-ok r (inr (m, e, no_p)) h = absurd (cc)

-- both checks of a sequence passed
both : (r s : Done) → and_then r (λ _. s) ≡ ok tt → (r ≡ ok tt) × (s ≡ ok tt)
both (ok _) s h = (refl, h)
both (err e) s h = absurd (cc)

both3 :
    (r s t : Done)
    → and_then r (λ _. and_then s (λ _. t)) ≡ ok tt
    → (r ≡ ok tt) × (s ≡ ok tt) × (t ≡ ok tt)
both3 r s t h = let (e, f) = both r (and_then s (λ _. t)) h in let (g, k) = both s t f in (e, g, k)

-- the request is for the daemon itself, or a call that the device takes
abbrev pub Served : Command → Fields → Type 0
Served command args =
    (command ≡ Command.daemon_status)
    ⊎ ((call : Call) × (device_call command args ≡ ok call) × IsPlain call)

args-Served :
    (py : Python) (command : Command) (args : Fields)
    → validate_args py command args ≡ ok tt
    → Served command args
unfolding validate_args device_call
args-Served py Command.get args h =
    let (_, ch) =
      both (require_keys py args ("channel" ∷ []) Command.get)
        (validate_channel (get "channel" args)) h in
    inr (Call.get_relay (get "channel" args), refl, Decides-ok _ (validate_channel-Decides _) ch)
args-Served py Command.set args h =
    let (_, ch, on) =
      both3 (require_keys py args ("channel" ∷ "on" ∷ []) Command.set)
        (validate_channel (get "channel" args)) (validate_on (get "on" args)) h in
    inr (
      Call.set_relay (get "channel" args) (get "on" args),
      refl,
      (Decides-ok _ (validate_channel-Decides _) ch, Decides-ok _ (validate_on-Decides _) on),
    )
args-Served py Command.set_all args h =
    let (_, st) =
      both (require_keys py args ("state" ∷ []) Command.set_all) (validate_state (get "state" args))
        h in
    inr (Call.set_all_relays (get "state" args), refl, Decides-ok _ (validate_state-Decides _) st)
args-Served py Command.pulse args h =
    let (_, ch, ms) =
      both3 (require_keys py args ("channel" ∷ "duration_ms" ∷ []) Command.pulse)
        (validate_channel (get "channel" args)) (validate_duration (get "duration_ms" args)) h in
    inr (
      Call.pulse_relay (get "channel" args) (get "duration_ms" args),
      refl,
      (Decides-ok _ (validate_channel-Decides _) ch, Decides-ok _ (validate_duration-Decides _) ms),
    )
args-Served py Command.identity args h = inr (Call.identity, refl, tt)
args-Served py Command.capabilities args h = inr (Call.capabilities, refl, tt)
args-Served py Command.build_info args h = inr (Call.build_info, refl, tt)
args-Served py Command.get_all args h = inr (Call.get_all_relays, refl, tt)
args-Served py Command.off_all args h = inr (Call.off_all_relays, refl, tt)
args-Served py Command.status args h = inr (Call.status, refl, tt)
args-Served py Command.health args h = inr (Call.health, refl, tt)
args-Served py Command.transport args h = inr (Call.transport_status, refl, tt)
args-Served py Command.safety args h = inr (Call.safety, refl, tt)
args-Served py Command.watchdog args h = inr (Call.watchdog, refl, tt)
args-Served py Command.reboot args h = inr (Call.reboot, refl, tt)
args-Served py Command.bootsel args h = inr (Call.bootsel, refl, tt)
args-Served py Command.daemon_status args h = inl refl

checked-Served :
    (r : Done) (q request : Request)
    → (r ≡ ok tt → Served q.command q.args)
    → and_then r (λ _. ok q) ≡ ok request
    → Served request.command request.args
checked-Served (ok _) q request served h =
    let e : q ≡ request = cc in subst (λ q. Served q.command q.args) e (served refl)
checked-Served (err e) q request served h = absurd (cc)

parts-Served :
    (py : Python) (order : ℕ) (i : Result Value) (c : Result Command) (a : Result Fields)
    (request : Request)
    → and_then i (λ i. and_then c (λ c. and_then a (λ a.
      and_then
        (validate_args py c a)
        (λ _. ok (record { request_id = i; command = c; args = a; accepted_order = order })))))
      ≡ ok request
    → Served request.command request.args
parts-Served py order (ok i) (ok c) (ok a) request h =
    checked-Served (validate_args py c a) _ request (args-Served py c a) h
parts-Served py order (err e) c a request h = absurd (cc)
parts-Served py order (ok i) (err e) a request h = absurd (cc)
parts-Served py order (ok i) (ok c) (err e) request h = absurd (cc)

-- A request that is accepted, whoever wrote it, is for the daemon itself or is dispatched as a
-- call that has a channel 0..5, a switch position, a mask 0..63 and a duration 10..60000 wherever
-- the call takes one.
pub accepted_is_safe :
    (py : Python) (order : ℕ) (v : Value) (request : Request)
    → parse_payload py order v ≡ ok request
    → Served request.command request.args
unfolding parse_payload
accepted_is_safe py order (obj d) request h =
    parts-Served py order (read_id py (get "id" d)) (read_command py (get "command" d))
      (read_args py (get_or (obj end) (lookup "args" d))) request h
accepted_is_safe py order _ request h = absurd (cc)
