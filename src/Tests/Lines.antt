-- ===== src/Tests/Lines.antt =====
-- Applications of the theorems on the daemon's line protocol.
use rp2350_relay_6ch.Daemon.Lines.{Reader, read_chunk}
use rp2350_relay_6ch.Daemon.Lines.Chunks.{read_chunk-append}
use rp2350_relay_6ch.Prelude.{◌∷◌, Bytes, ◌++◌, ◌≡◌, refl, ◌⊎◌, [], true}
use rp2350_relay_6ch.Prelude.Int.{pos}
use rp2350_relay_6ch.Errors.{Exc, ok, err}
use rp2350_relay_6ch.Value.{Value, Fields, end, field, int, str, obj, bool}
use rp2350_relay_6ch.Command.{Command}
use rp2350_relay_6ch.Requests.{parse_payload}
use rp2350_relay_6ch.Requests.Strict.{IsPlain}
use rp2350_relay_6ch.Requests.Accepted.{Served, accepted_is_safe}
use rp2350_relay_6ch.Client.{Call}
use rp2350_relay_6ch.DaemonClient.{RelayDaemonClient, Socket, line, perform}
use rp2350_relay_6ch.DaemonClient.Asked.{IsAsked, asked_is_served}
use rp2350_relay_6ch.Tests.{python, json, asked_for}

abbrev set_args : Fields
set_args = field "channel" (int (pos 2)) (field "on" (bool true) end)

abbrev set_request : Value
set_request =
    obj (field "id" (str "a") (field "command" (str "set") (field "args" (obj set_args) end)))

set_request-parsed : parse_payload python 1 set_request ≡ ok (asked_for Command.set set_args)
unfolding parse_payload
set_request-parsed = refl

accepted_is_safe_example : Served Command.set set_args
accepted_is_safe_example =
    accepted_is_safe python 1 set_request (asked_for Command.set set_args) set_request-parsed

abbrev socket : Socket
socket = record { talk = λ sent packet. line [] }

abbrev asker : RelayDaemonClient
asker = record { timeout_s = pos 1000; next_id = 4; sent = [] }

abbrev set_call : Call
set_call = Call.set_relay (int (pos 2)) (bool true)

asked_is_served_example :
    (IsPlain set_call × IsAsked python json socket 1 set_call asker)
    ⊎ (¬ (IsPlain set_call)
        × (e : Exc) × (perform python json socket set_call asker ≡ (err e, asker)))
asked_is_served_example = asked_is_served python json socket 1 set_call asker

abbrev reader : Reader
reader = record { buffer = []; order = 0; is_open = true; outputs = [] }

-- one line and the start of the next, then its end
abbrev first_chunk : Bytes
first_chunk = 123 ∷ 125 ∷ 10 ∷ 123 ∷ []

abbrev second_chunk : Bytes
second_chunk = 125 ∷ 10 ∷ []

first_chunk-open : (read_chunk first_chunk reader).is_open ≡ true
unfolding read_chunk
first_chunk-open = refl

read_chunk-append_example :
    read_chunk second_chunk (read_chunk first_chunk reader)
    ≡ read_chunk (first_chunk ++ second_chunk) reader
read_chunk-append_example = read_chunk-append first_chunk second_chunk reader first_chunk-open
