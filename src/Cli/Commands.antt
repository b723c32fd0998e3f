-- ===== src/Cli/Commands.antt =====
-- What the commands of the tool send, and that they close what they open.
use rp2350_relay_6ch.Prelude.{
  [], zero, suc, ◌≡◌, ◌≢◌, refl, inl, inr, String, Option, none, some, arith,
}
use rp2350_relay_6ch.Prelude.Int.{ℤ, pos, negsuc}
use rp2350_relay_6ch.Errors.{Result-cases}
use rp2350_relay_6ch.Value.{Python, int}
use rp2350_relay_6ch.Client.{Call}
use rp2350_relay_6ch.Client.Arguments.{IsChannel, IsMask}
use rp2350_relay_6ch.Daemon.World.{World, Trace, open_clients}
use rp2350_relay_6ch.Daemon.Invariant.{Gains}
use rp2350_relay_6ch.Cli.{
  parsed, parse_state, parse_channel, state_of, channel_of, with_client, on_port, run_command,
  require_port,
}

module _ (world : World) (py : Python) where
  with_client-Gains :
      (port : String) (method : Call) (t : Trace)
      → Gains t (with_client world py port method t).1 []
  unfolding with_client open_clients
  with_client-Gains port method t = ground arith

  on_port-Gains :
      (port : String) (method : Call) (t : Trace)
      → method ≢ Call.identity
      → method ≢ Call.capabilities
      → Gains t (on_port world py port method t).1 []
  unfolding on_port
  on_port-Gains port Call.identity t a b = absurd (a refl)
  on_port-Gains port Call.capabilities t a b = absurd (b refl)
  on_port-Gains port method t a b = with_client-Gains port method t

  -- A command other than identity and capabilities leaves the same clients open as before it, so
  -- that a client which it opens is closed, whatever the device answers and wherever it raises.
  pub run_command-Gains :
      (port : Option String) (method : Call) (t : Trace)
      → method ≢ Call.identity
      → method ≢ Call.capabilities
      → Gains t (run_command world py port method t).1 []
  unfolding run_command
  run_command-Gains port method t a b = elim (Result-cases (require_port port)) [
    | inl (p, e) ↦ rw e (on_port-Gains p method t a b)
    | inr (x, e) ↦ rw e refl
  ]

channel_of-IsChannel : (o : Option ℤ) (n : ℤ) → channel_of o ≡ parsed n → IsChannel (int n)
unfolding channel_of
channel_of-IsChannel none n h = absurd (cc)
channel_of-IsChannel (some (pos zero)) n h = absurd (cc)
channel_of-IsChannel (some (pos (suc m))) (pos k) h = ground arith
channel_of-IsChannel (some (pos (suc m))) (negsuc k) h = ground arith
channel_of-IsChannel (some (negsuc m)) n h = ground arith

state_of-IsMask : (o : Option ℤ) (n : ℤ) → state_of o ≡ parsed n → IsMask (int n)
unfolding state_of
state_of-IsMask none n h = absurd (cc)
state_of-IsMask (some (pos m)) (pos k) h = ground arith
state_of-IsMask (some (pos m)) (negsuc k) h = ground arith
state_of-IsMask (some (negsuc m)) n h = absurd (cc)

-- A channel text that is accepted names a channel 0..5 of the board, which the client takes.
pub parse_channel-IsChannel :
    (py : Python) (text : String) (n : ℤ) → parse_channel py text ≡ parsed n → IsChannel (int n)
unfolding parse_channel
parse_channel-IsChannel py text n h = channel_of-IsChannel (py.int_of_literal text) n h

-- A mask text that is accepted is a six-bit mask, which the client takes.
pub parse_state-IsMask :
    (py : Python) (text : String) (n : ℤ) → parse_state py text ≡ parsed n → IsMask (int n)
unfolding parse_state
parse_state-IsMask py text n h = state_of-IsMask (py.int_of_literal text) n h
