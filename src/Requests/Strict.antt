-- ===== src/Requests/Strict.antt =====
-- The calls that the daemon's side takes: its checks refuse the bools that RelayClient lets pass
-- for integers.
use rp2350_relay_6ch.Prelude.{
  ◌≤◌, ◌<◌, refl, inl, inr, leb, ◌==◌, ◌&&◌, Bool-cases, clear_low, arith,
}
use rp2350_relay_6ch.Prelude.Int.{pos}
use rp2350_relay_6ch.Value.{Value, int, bool, check_int}
use rp2350_relay_6ch.Requests.{validate_channel, validate_on, validate_state, validate_duration}
use rp2350_relay_6ch.Client.{Call}
use rp2350_relay_6ch.Client.Arguments.{IsSwitch, IsDuration, Decides}

abbrev pub IsPlainChannel : Value → Type 0
IsPlainChannel (int (pos n)) = n < 6
IsPlainChannel _ = ⊥

abbrev pub IsPlainMask : Value → Type 0
IsPlainMask (int (pos n)) = n < 64
IsPlainMask _ = ⊥

-- A call that RelayDaemonClient takes; it has no `heartbeat`.
abbrev pub IsPlain : Call → Type 0
IsPlain (Call.get_relay channel) = IsPlainChannel channel
IsPlain (Call.set_relay channel on) = IsPlainChannel channel × IsSwitch on
IsPlain (Call.set_all_relays state) = IsPlainMask state
IsPlain (Call.pulse_relay channel duration_ms) = IsPlainChannel channel × IsDuration duration_ms
IsPlain Call.heartbeat = ⊥
IsPlain _ = Unit

pub validate_channel-Decides : (v : Value) → Decides (validate_channel v) (IsPlainChannel v)
unfolding validate_channel check_int
validate_channel-Decides (int (pos n)) = elim (Bool-cases (leb 6 n)) [
  | inl h ↦ inr ("channel must be 0..5", ground arith, λ (lt : n < 6). ground arith)
  | inr h ↦ inl (ground arith, ground arith)
]
validate_channel-Decides _ = inr ("channel must be 0..5", ground arith, λ h. h)

pub validate_on-Decides : (v : Value) → Decides (validate_on v) (IsSwitch v)
unfolding validate_on
validate_on-Decides (bool b) = inl (refl, tt)
validate_on-Decides _ = inr ("on must be a bool", refl, λ h. h)

pub validate_state-Decides : (v : Value) → Decides (validate_state v) (IsPlainMask v)
unfolding validate_state check_int
validate_state-Decides (int (pos n)) = elim (Bool-cases (clear_low 6 n == 0)) [
  | inl h ↦ inl (ground arith, ground arith)
  | inr h ↦ inr ("state must be 0..0x3f", ground arith, λ (lt : n < 64). ground arith)
]
validate_state-Decides _ = inr ("state must be 0..0x3f", ground arith, λ h. h)

pub validate_duration-Decides : (v : Value) → Decides (validate_duration v) (IsDuration v)
unfolding validate_duration check_int
validate_duration-Decides (int (pos n)) = elim (Bool-cases (leb 10 n && leb n 60000)) [
  | inl h ↦ inl (ground arith, ground arith)
  | inr h ↦
      inr (
        "duration_ms must be 10..60000",
        ground arith,
        λ (d : (10 ≤ n) × (n ≤ 60000)). ground arith,
      )
]
validate_duration-Decides _ = inr ("duration_ms must be 10..60000", ground arith, λ h. h)
