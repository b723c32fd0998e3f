-- ===== src/Session/Closing.antt =====
-- How a session is left: it refuses while a relay is on or its state is unknown.
use rp2350_relay_6ch.Prelude.{String, Bool, true, false, ◌<>◌, ◌&&◌, if◌then◌else◌}
use rp2350_relay_6ch.Prelude.Int.{ℤ, pos, eqb_ℤ}
use rp2350_relay_6ch.Errors.{Result, ok, err, and_then}
use rp2350_relay_6ch.Value.{Python, Fields, to_int}
use rp2350_relay_6ch.Client.{Call}
use rp2350_relay_6ch.Cli.Format.{item, mask_of}
use rp2350_relay_6ch.Action.{Act, pure, lift, modify, ◌>>=◌, ◌>>◌}
use rp2350_relay_6ch.Session.Text.{labelled, format_channels}
use rp2350_relay_6ch.Session.World.{SessionWorld, Session, say, call}
use rp2350_relay_6ch.Session.Connect.{close_current}
use rp2350_relay_6ch.Session.Commands.{require_client}

abbrev pub refuse : String → Act Session Bool
refuse text = say text >> say "run 'off-all' first or use --force" >> pure false

-- `if state or pulsing`
abbrev pub verdict_of_masks : ℤ × ℤ → Act Session Bool
verdict_of_masks masks =
    if eqb_ℤ masks.0 (pos 0) && eqb_ℤ masks.1 (pos 0)
    then pure true
    else refuse (
        "refusing to close: on="
        <> format_channels masks.0
        <> " pulsing="
        <> format_channels masks.1)

abbrev pub after_status : Result (ℤ × ℤ) → Act Session Bool
after_status (ok masks) = verdict_of_masks masks
after_status (err e) = refuse ("refusing to close: relay state is unknown (" <> labelled e <> ")")

module _ (world : SessionWorld) (py : Python) where
  -- the masks in a response to `status`; it must have a state
  unfoldable pub masks_of : Fields → Result (ℤ × ℤ)
  unfolding item to_int
  masks_of status = and_then (item py "state" status) (λ value.
      and_then (to_int py value)
        (λ state. and_then (mask_of py "pulsing" status) (λ pulsing. ok (state, pulsing))))

  -- the `try` block of `_close_allowed`
  unfoldable pub read_masks : Act Session (ℤ × ℤ)
  unfolding require_client call masks_of
  read_masks = do
    client ← require_client
    status ← call world client Call.status
    lift (masks_of status)

  -- _close_allowed
  unfoldable pub close_allowed : Bool → Act Session Bool
  unfolding read_masks
  close_allowed true s = pure true s
  close_allowed false s = let (r, s') = read_masks s in after_status r s'

  abbrev pub leave : Act Session (Unit {0})
  leave = modify (λ s. record s { should_exit = true })

  -- _handle_exit
  unfoldable pub handle_exit : Bool → Act Session (Unit {0})
  unfolding close_allowed close_current
  handle_exit force s =
      if s.connected
      then (do
        allowed ← close_allowed force
        if allowed then close_current world py force true >> leave else pure tt)
          s
      else leave s

  -- _handle_disconnect
  unfoldable pub handle_disconnect : Bool → Act Session (Unit {0})
  unfolding close_allowed close_current
  handle_disconnect force s =
      if s.connected
      then (do
        allowed ← close_allowed force
        if allowed then close_current world py force true >> say "disconnected" else pure tt)
          s
      else say "not connected" s
