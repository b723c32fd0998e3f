-- ===== src/DaemonClient/Asked.antt =====
-- What RelayDaemonClient asks, and what the daemon makes of it.
use rp2350_relay_6ch.Prelude.{
  ℕ, ◌≡◌, refl, ◌⊎◌, inl, inr, Option, none, some, ◌∷◌, arith, ◌==◌, Bool-cases, clear_low, ◌<◌,
}
use rp2350_relay_6ch.Prelude.Int.{pos}
use rp2350_relay_6ch.Errors.{Exc, ok, err, validation}
use rp2350_relay_6ch.Value.{Python, Value, Fields, end, field, int, check_int}
use rp2350_relay_6ch.Command.{Command, of_name-name}
use rp2350_relay_6ch.Requests.{Json, Request, parse_payload, validate_args, validate_state}
use rp2350_relay_6ch.Requests.Strict.{
  IsPlain, IsPlainMask, validate_channel-Decides, validate_on-Decides, validate_duration-Decides,
  validate_state-Decides,
}
use rp2350_relay_6ch.Client.{Call}
use rp2350_relay_6ch.Client.Arguments.{Decides, and_then-Decides}
use rp2350_relay_6ch.Daemon.Serve.{device_call}
use rp2350_relay_6ch.DaemonClient.{
  RelayDaemonClient, Socket, frame, encoded, validate_state_mask, guarded, request, perform,
}

validate_state_mask-Decides : (v : Value) → Decides (validate_state_mask v) (IsPlainMask v)
unfolding validate_state_mask check_int
validate_state_mask-Decides (int (pos n)) = elim (Bool-cases (clear_low 6 n == 0)) [
  | inl h ↦ inl (ground arith, ground arith)
  | inr h ↦
      inr ("state must be a six-bit mask 0..0x3f", ground arith, λ (lt : n < 64). ground arith)
]
validate_state_mask-Decides _ = inr ("state must be a six-bit mask 0..0x3f", ground arith, λ h. h)

-- a mask that the client takes passes the daemon's own check
state_passes : (v : Value) → IsPlainMask v → validate_state v ≡ ok tt
state_passes v p = elim (validate_state-Decides v) [
  | inl (e, _) ↦ e
  | inr (m, e, no_p) ↦ absurd (no_p p)
]

or_no_args : Option Fields → Fields
or_no_args none = end
or_no_args (some args) = args

-- a frame with valid arguments is accepted with its id, command and arguments
parse_payload-frame :
    (py : Python) (order n : ℕ) (command : Command) (args : Option Fields)
    → validate_args py command (or_no_args args) ≡ ok tt
    → parse_payload py order (frame n command args)
      ≡ ok (record {
        request_id = int (pos n);
        command = command;
        args = or_no_args args;
        accepted_order = order;
      })
unfolding parse_payload frame or_no_args
parse_payload-frame py order n command none h = rw (of_name-name command, h) refl
parse_payload-frame py order n command (some args) h = rw (of_name-name command, h) refl

module _ (py : Python) (json : Json) (socket : Socket) (order : ℕ) where
  -- What the client sends for a call is accepted by the daemon and dispatched as the same call.
  abbrev pub IsAsked : Call → RelayDaemonClient → Type 0
  IsAsked call c =
      (f : Value) × ((perform py json socket call c).1.sent ≡ encoded json f ∷ c.sent)
      × (r : Request) × (parse_payload py order f ≡ ok r)
      × (r.request_id ≡ int (pos c.next_id))
      × (device_call r.command r.args ≡ ok call)

  asked :
      (call : Call) (command : Command) (args : Option Fields) (c : RelayDaemonClient)
      → (perform py json socket call c ≡ request py json socket command args c)
      → validate_args py command (or_no_args args) ≡ ok tt
      → device_call command (or_no_args args) ≡ ok call
      → IsAsked call c
  unfolding request
  asked call command args c e valid same = (
    frame c.next_id command args,
    rw e refl,
    _,
    parse_payload-frame py order c.next_id command args valid,
    refl,
    same,
  )

  -- RelayDaemonClient takes exactly the calls with plain integers in range (and no heartbeat): it
  -- sends one line, whose request the daemon accepts with the line's id and dispatches as the same
  -- call with the same arguments. Any other call raises and leaves the client as it was.
  pub asked_is_served :
      (call : Call) (c : RelayDaemonClient)
      → (IsPlain call × IsAsked call c)
        ⊎ (¬ (IsPlain call) × (e : Exc) × (perform py json socket call c ≡ (err e, c)))
  unfolding perform guarded validate_args device_call or_no_args
  asked_is_served (Call.get_relay ch) c = elim (validate_channel-Decides ch) [
    | inl (e, p) ↦
        inl (p, asked _ Command.get (some (field "channel" ch end)) c (rw e refl) (rw e refl) refl)
    | inr (m, e, no_p) ↦ inr (no_p, validation m, rw e refl)
  ]
  asked_is_served (Call.set_relay ch on) c =
      elim (and_then-Decides _ _ (validate_channel-Decides ch) (validate_on-Decides on)) [
        | inl (e, p) ↦ inl (
          p,
          asked _ Command.set (some (field "channel" ch (field "on" on end))) c (rw e refl) e refl,
        )
        | inr (m, e, no_p) ↦ inr (no_p, validation m, rw e refl)
      ]
  asked_is_served (Call.set_all_relays s) c = elim (validate_state_mask-Decides s) [
    | inl (e, p) ↦ inl (
      p,
      asked _ Command.set_all (some (field "state" s end)) c (rw e refl) (state_passes s p) refl,
    )
    | inr (m, e, no_p) ↦ inr (no_p, validation m, rw e refl)
  ]
  asked_is_served (Call.pulse_relay ch ms) c =
      elim (and_then-Decides _ _ (validate_channel-Decides ch) (validate_duration-Decides ms)) [
        | inl (e, p) ↦ inl (
          p,
          asked _ Command.pulse (some (field "channel" ch (field "duration_ms" ms end))) c
              (rw e refl) e refl,
        )
        | inr (m, e, no_p) ↦ inr (no_p, validation m, rw e refl)
      ]
  asked_is_served Call.heartbeat c = inr (λ h. h, _, refl)
  asked_is_served Call.identity c = inl (tt, asked _ Command.identity none c refl refl refl)
  asked_is_served Call.capabilities c = inl (tt, asked _ Command.capabilities none c refl refl refl)
  asked_is_served Call.build_info c = inl (tt, asked _ Command.build_info none c refl refl refl)
  asked_is_served Call.get_all_relays c = inl (tt, asked _ Command.get_all none c refl refl refl)
  asked_is_served Call.off_all_relays c = inl (tt, asked _ Command.off_all none c refl refl refl)
  asked_is_served Call.status c = inl (tt, asked _ Command.status none c refl refl refl)
  asked_is_served Call.health c = inl (tt, asked _ Command.health none c refl refl refl)
  asked_is_served Call.transport_status c =
      inl (tt, asked _ Command.transport none c refl refl refl)
  asked_is_served Call.safety c = inl (tt, asked _ Command.safety none c refl refl refl)
  asked_is_served Call.watchdog c = inl (tt, asked _ Command.watchdog none c refl refl refl)
  asked_is_served Call.reboot c = inl (tt, asked _ Command.reboot none c refl refl refl)
  asked_is_served Call.bootsel c = inl (tt, asked _ Command.bootsel none c refl refl refl)
