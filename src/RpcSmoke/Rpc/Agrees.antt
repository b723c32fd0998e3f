-- ===== src/RpcSmoke/Rpc/Agrees.antt =====
-- The requests of the tool beside those of RelayClient.
use rp2350_relay_6ch.Prelude.{◌≡◌, refl, true, String, inl, inr, ◌⊎◌, ◌∙◌}
use rp2350_relay_6ch.Errors.{err, validation}
use rp2350_relay_6ch.Prelude.Int.{pos}
use rp2350_relay_6ch.Value.{Python, bool, int}
use rp2350_relay_6ch.Protocol.{Code, code_number}
use rp2350_relay_6ch.Smp.{Codec}
use rp2350_relay_6ch.Client
use rp2350_relay_6ch.Client.{RelayClient, Link, Call, perform}
use rp2350_relay_6ch.Client.Arguments.{IsInRange, send, perform_checked}
use rp2350_relay_6ch.RpcSmoke.Rpc.{Action, asked, command_id}

-- the method of RelayClient for a subcommand; the two invalid requests are no calls it would send
abbrev pub method : Action → Call
method Action.identity = Call.identity
method Action.capabilities = Call.capabilities
method Action.build_info = Call.build_info
method Action.get_all = Call.get_all_relays
method Action.status = Call.status
method Action.health = Call.health
method Action.transport = Call.transport_status
method Action.safety = Call.safety
method Action.watchdog = Call.watchdog
method Action.off_all = Call.off_all_relays
method Action.invalid_channel = Call.set_relay (int (pos 6)) (bool true)
method Action.invalid_pulse = Call.pulse_relay (int (pos 0)) (int (pos 1))
method (Action.get channel) = Call.get_relay (int channel)
method (Action.set channel on) = Call.set_relay (int channel) (bool on)
method (Action.set_all state) = Call.set_all_relays (int state)
method (Action.pulse channel ms) = Call.pulse_relay (int channel) (int ms)

module _ (w : Codec) (py : Python) (link : Link) where
  asked-send :
      (action : Action) (c : RelayClient)
      → (code : Code) × (code_number code ≡ (asked action).command)
        × (send w py link (method action) c
            ≡ Client.request w py link code (asked action).op (asked action).payload c)
  unfolding asked code_number command_id
  asked-send Action.identity c = (Code.identity, refl, refl)
  asked-send Action.capabilities c = (Code.capabilities, refl, refl)
  asked-send Action.build_info c = (Code.build_info, refl, refl)
  asked-send Action.get_all c = (Code.get_all, refl, refl)
  asked-send Action.status c = (Code.status, refl, refl)
  asked-send Action.health c = (Code.health, refl, refl)
  asked-send Action.transport c = (Code.transport, refl, refl)
  asked-send Action.safety c = (Code.safety, refl, refl)
  asked-send Action.watchdog c = (Code.watchdog, refl, refl)
  asked-send Action.off_all c = (Code.off_all, refl, refl)
  asked-send Action.invalid_channel c = (Code.set, refl, refl)
  asked-send Action.invalid_pulse c = (Code.pulse, refl, refl)
  asked-send (Action.get channel) c = (Code.get, refl, refl)
  asked-send (Action.set channel on) c = (Code.set, refl, refl)
  asked-send (Action.set_all state) c = (Code.set_all, refl, refl)
  asked-send (Action.pulse channel ms) c = (Code.pulse, refl, refl)

  -- The tool and RelayClient agree on the wire: where the arguments of a subcommand are in range,
  -- the method of RelayClient sends the operation, command number and payload that the tool sends;
  -- where they are not, as in the two invalid requests of the tool, it raises
  -- RelayValidationError and sends nothing.
  pub asked-perform :
      (action : Action) (c : RelayClient)
      → (code : Code) × (code_number code ≡ (asked action).command)
        × ((IsInRange (method action)
              × (perform w py link (method action) c
                  ≡ Client.request w py link code (asked action).op (asked action).payload c))
            ⊎ (¬ (IsInRange (method action))
                × ((m : String) × (perform w py link (method action) c ≡ (err (validation m), c)))))
  asked-perform action c =
      let (code, number, same) = asked-send action c in
      (
        code,
        number,
        elim (perform_checked w py link (method action) c) [
          | inl (fits, e) ↦ inl (fits, e ∙ same)
          | inr other ↦ inr other
        ],
      )
