-- ===== src/Session/Completion.antt =====
-- The completion of a line (session.py, RelaySessionCompleter).
use rp2350_relay_6ch.Prelude.{
  String, Bool, true, false, Option, none, some, List, [], ◌∷◌, keep, member, starts_with, str_eq,
  if◌then◌else◌, ◌&&◌,
}
use rp2350_relay_6ch.Session.World.{Words, words, bad_line}

-- CONNECTED_COMMANDS
abbrev pub connected_commands : List String
connected_commands =
    "identity" ∷ "capabilities" ∷ "build-info" ∷ "get" ∷ "get-all" ∷ "set" ∷ "set-all" ∷ "pulse"
    ∷ "off-all" ∷ "status" ∷ "health" ∷ "transport" ∷ "safety" ∷ "watchdog" ∷ "smoke" ∷ "reboot"
    ∷ "bootsel" ∷ "disconnect" ∷ "connect" ∷ "help" ∷ "exit" ∷ "quit" ∷ []

-- DISCONNECTED_COMMANDS
abbrev pub disconnected_commands : List String
disconnected_commands = "connect" ∷ "help" ∷ "exit" ∷ "quit" ∷ []

-- RelaySessionCompleter._commands
abbrev pub commands : Bool → List String
commands connected = if connected then connected_commands else disconnected_commands

-- _channel_labels
abbrev pub channel_labels : List String
channel_labels = "1" ∷ "2" ∷ "3" ∷ "4" ∷ "5" ∷ "6" ∷ []

-- _matching
unfoldable pub matching : List String → String → List String
matching values prefix = keep (λ value. starts_with value prefix) values

-- `tokens[:-1], tokens[-1]`
unfoldable pub split_last : String → List String → List String × String
split_last token [] = ([], token)
split_last token (next ∷ tokens) = let rest = split_last next tokens in (token ∷ rest.0, rest.1)

-- _completion_context, of the words of the text and whether it ends in a space
unfoldable pub completion_context : Bool → Words → Option (List String × String)
unfolding split_last
completion_context spaced (bad_line m) = none
completion_context true (words tokens) = some (tokens, "")
completion_context false (words []) = some ([], "")
completion_context false (words (token ∷ tokens)) = some (split_last token tokens)

abbrev is_nil : List String → Bool
is_nil [] = true
is_nil (a ∷ args) = false

abbrev is_single : List String → Bool
is_single (a ∷ []) = true
is_single args = false

-- the values that may stand after a command and its arguments
unfoldable pub candidates : String → List String → List String
candidates command args =
    if str_eq command "connect"
    then "--port" ∷ "--serial" ∷ []
    else if member command ("disconnect" ∷ "exit" ∷ "quit" ∷ [])
    then "--force" ∷ []
    else if member command ("get" ∷ "set" ∷ "pulse" ∷ []) && is_nil args
    then channel_labels
    else if str_eq command "set" && is_single args
    then "on" ∷ "off" ∷ []
    else []

unfoldable pub suggestions_in : Bool → List String × String → String × List String
unfolding candidates matching
suggestions_in connected ([], prefix) = (prefix, matching (commands connected) prefix)
suggestions_in connected (command ∷ args, prefix) =
    if member command (commands connected)
    then (prefix, matching (candidates command args) prefix)
    else (prefix, [])

-- RelaySessionCompleter._suggestions
unfoldable pub suggestions : Bool → Option (List String × String) → String × List String
unfolding suggestions_in
suggestions connected none = ("", [])
suggestions connected (some context) = suggestions_in connected context
