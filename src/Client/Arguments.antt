-- ===== src/Client/Arguments.antt =====
-- The arguments that RelayClient sends.
use rp2350_relay_6ch.Prelude.{
  ◌≤◌, ◌<◌, ◌≡◌, refl, true, false, ◌⊎◌, inl, inr, String, leb, ◌==◌, ◌&&◌, Bool-cases, clear_low,
  arith,
}
use rp2350_relay_6ch.Prelude.Int.{pos}
use rp2350_relay_6ch.Errors.{Result, ok, err, Done, and_then, validation}
use rp2350_relay_6ch.Value.{Python, Value, Fields, end, field, int, bool}
use rp2350_relay_6ch.Protocol.{Code, op_read, op_write}
use rp2350_relay_6ch.Smp.{Codec}
use rp2350_relay_6ch.Client.{
  RelayClient, Link, Call, identity, capabilities, build_info, get_all_relays, off_all_relays,
  status, health, transport_status, safety, watchdog, reboot, bootsel, heartbeat, get_relay,
  set_relay, set_all_relays, pulse_relay, validate_channel, validate_on, validate_state_mask,
  validate_duration, guarded, request, perform,
}

-- The ranges of the arguments, with Python's integers: a channel 0..5, a switch position, a six-bit
-- mask, a pulse of 10..60000 ms. A bool is an integer in Python, and so it is a channel or a mask
-- here, although the firmware refuses it; it is no number of milliseconds in a range, as 1 < 10.
abbrev pub IsChannel : Value → Type 0
IsChannel (int (pos n)) = n < 6
IsChannel (bool _) = Unit
IsChannel _ = ⊥

abbrev pub IsSwitch : Value → Type 0
IsSwitch (bool _) = Unit
IsSwitch _ = ⊥

abbrev pub IsMask : Value → Type 0
IsMask (int (pos n)) = n < 64
IsMask (bool _) = Unit
IsMask _ = ⊥

abbrev pub IsDuration : Value → Type 0
IsDuration (int (pos n)) = (10 ≤ n) × (n ≤ 60000)
IsDuration _ = ⊥

abbrev pub IsInRange : Call → Type 0
IsInRange (get_relay channel) = IsChannel channel
IsInRange (set_relay channel on) = IsChannel channel × IsSwitch on
IsInRange (set_all_relays state) = IsMask state
IsInRange (pulse_relay channel duration_ms) = IsChannel channel × IsDuration duration_ms
IsInRange _ = Unit

-- A check passes where `P` holds, and raises RelayValidationError where it does not.
abbrev pub Decides : Done → Type 0 → Type 0
Decides r P = ((r ≡ ok tt) × P) ⊎ ((m : String) × (r ≡ err (validation m)) × ¬ P)

pub validate_channel-Decides : (v : Value) → Decides (validate_channel v) (IsChannel v)
unfolding validate_channel
validate_channel-Decides (int (pos n)) = elim (Bool-cases (leb 6 n)) [
  | inl h ↦ inr ("channel must be 0..5", ground arith, λ (lt : n < 6). ground arith)
  | inr h ↦ inl (ground arith, ground arith)
]
validate_channel-Decides (bool true) = inl (refl, tt)
validate_channel-Decides (bool false) = inl (refl, tt)
validate_channel-Decides _ = inr ("channel must be 0..5", ground arith, λ h. h)

pub validate_on-Decides : (v : Value) → Decides (validate_on v) (IsSwitch v)
unfolding validate_on
validate_on-Decides (bool b) = inl (refl, tt)
validate_on-Decides _ = inr ("on must be a bool", refl, λ h. h)

pub validate_state_mask-Decides : (v : Value) → Decides (validate_state_mask v) (IsMask v)
unfolding validate_state_mask
validate_state_mask-Decides (int (pos n)) = elim (Bool-cases (clear_low 6 n == 0)) [
  | inl h ↦ inl (ground arith, ground arith)
  | inr h ↦
      inr ("state must be a six-bit mask 0..0x3f", ground arith, λ (lt : n < 64). ground arith)
]
validate_state_mask-Decides (bool true) = inl (refl, tt)
validate_state_mask-Decides (bool false) = inl (refl, tt)
validate_state_mask-Decides _ = inr ("state must be a six-bit mask 0..0x3f", ground arith, λ h. h)

pub validate_duration-Decides : (v : Value) → Decides (validate_duration v) (IsDuration v)
unfolding validate_duration
validate_duration-Decides (int (pos n)) = elim (Bool-cases (leb 10 n && leb n 60000)) [
  | inl h ↦ inl (ground arith, ground arith)
  | inr h ↦
      inr (
        "duration_ms must be 10..60000",
        ground arith,
        λ (d : (10 ≤ n) × (n ≤ 60000)). ground arith,
      )
]
validate_duration-Decides (bool true) = inr ("duration_ms must be 10..60000", refl, λ h. h)
validate_duration-Decides (bool false) = inr ("duration_ms must be 10..60000", refl, λ h. h)
validate_duration-Decides _ = inr ("duration_ms must be 10..60000", ground arith, λ h. h)

pub and_then-Decides :
    {P Q : Type 0} (r s : Done) → Decides r P → Decides s Q → Decides (and_then r (λ _. s)) (P × Q)
and_then-Decides r s (inl (e, p)) (inl (f, q)) = inl (rw e f, (p, q))
and_then-Decides r s (inl (e, p)) (inr (m, f, no_q)) = inr (m, rw e f, λ h. no_q h.1)
and_then-Decides r s (inr (m, e, no_p)) _ = inr (m, rw e, λ h. no_p h.0)

module _ (w : Codec) (py : Python) (link : Link) where
  -- The command, operation and arguments of each call, as the protocol has them.
  abbrev pub send : Call → RelayClient → Result Fields × RelayClient
  send identity = request w py link Code.identity op_read end
  send capabilities = request w py link Code.capabilities op_read end
  send build_info = request w py link Code.build_info op_read end
  send get_all_relays = request w py link Code.get_all op_read end
  send off_all_relays = request w py link Code.off_all op_write end
  send status = request w py link Code.status op_read end
  send health = request w py link Code.health op_read end
  send transport_status = request w py link Code.transport op_read end
  send safety = request w py link Code.safety op_read end
  send watchdog = request w py link Code.watchdog op_read end
  send reboot = request w py link Code.reboot op_write end
  send bootsel = request w py link Code.bootsel op_write end
  send heartbeat = request w py link Code.heartbeat op_write end
  send (get_relay ch) = request w py link Code.get op_read (field "channel" ch end)
  send (set_relay ch on) =
      request w py link Code.set op_write (field "channel" ch (field "on" on end))
  send (set_all_relays s) = request w py link Code.set_all op_write (field "state" s end)
  send (pulse_relay ch ms) =
      request w py link Code.pulse op_write (field "channel" ch (field "duration_ms" ms end))

  guarded-Decides :
      {P : Type 0} (r : Done) (k : RelayClient → Result Fields × RelayClient) (c : RelayClient)
      → Decides r P
      → (P × (guarded r k c ≡ k c))
        ⊎ (¬ P × ((m : String) × (guarded r k c ≡ (err (validation m), c))))
  unfolding guarded
  guarded-Decides r k c (inl (e, p)) = inl (p, rw e)
  guarded-Decides r k c (inr (m, e, no_p)) = inr (no_p, (m, rw e))

  -- A call whose arguments are in range, where a bool given as a number counts as the one that it
  -- equals, is sent as its own command with those arguments; any other call raises
  -- RelayValidationError, sends nothing and uses no sequence number.
  pub perform_checked :
      (call : Call) (c : RelayClient)
      → (IsInRange call × (perform w py link call c ≡ send call c))
        ⊎ (¬ (IsInRange call)
            × ((m : String) × (perform w py link call c ≡ (err (validation m), c))))
  unfolding perform
  perform_checked (get_relay ch) c = guarded-Decides _ _ c (validate_channel-Decides ch)
  perform_checked (set_relay ch on) c =
      guarded-Decides _ _ c
        (and_then-Decides _ _ (validate_channel-Decides ch) (validate_on-Decides on))
  perform_checked (set_all_relays s) c = guarded-Decides _ _ c (validate_state_mask-Decides s)
  perform_checked (pulse_relay ch ms) c =
      guarded-Decides _ _ c
        (and_then-Decides _ _ (validate_channel-Decides ch) (validate_duration-Decides ms))
  perform_checked _ c = inl (tt, refl)
