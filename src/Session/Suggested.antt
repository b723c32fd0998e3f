-- ===== src/Session/Suggested.antt =====
-- What the completion offers.
use rp2350_relay_6ch.Prelude.{
  String, Bool, true, false, Bool-cases, ◌≡◌, inl, inr, refl, Option, none, some, List, [], ◌∷◌,
  member, starts_with,
}
use rp2350_relay_6ch.Session.Completion.{
  commands, disconnected_commands, matching, candidates, suggestions_in, suggestions,
}
use rp2350_relay_6ch.Session.Run.{offline_commands}

abbrev pub AllStart : String → List String → Type 0
AllStart prefix [] = Unit {0}
AllStart prefix (s ∷ texts) = (starts_with s prefix ≡ true) × AllStart prefix texts

-- the commands that a session takes without a connection
abbrev pub AllOffline : List String → Type 0
AllOffline [] = Unit {0}
AllOffline (s ∷ texts) = (member s offline_commands ≡ true) × AllOffline texts

matching-AllStart :
    (values : List String) (prefix : String) → AllStart prefix (matching values prefix)
unfolding matching
matching-AllStart [] prefix = tt
matching-AllStart (s ∷ values) prefix = elim (Bool-cases (starts_with s prefix)) [
  | inl h ↦ rw h (h, matching-AllStart values prefix)
  | inr h ↦ rw h (matching-AllStart values prefix)
]

matching-AllOffline :
    (values : List String) (prefix : String)
    → AllOffline values
    → AllOffline (matching values prefix)
unfolding matching
matching-AllOffline [] prefix all = tt
matching-AllOffline (s ∷ values) prefix all = elim (Bool-cases (starts_with s prefix)) [
  | inl h ↦ rw h (all.0, matching-AllOffline values prefix all.1)
  | inr h ↦ rw h (matching-AllOffline values prefix all.1)
]

suggestions_in-AllStart :
    (connected : Bool) (tokens : List String) (prefix : String)
    → let (p, texts) = suggestions_in connected (tokens, prefix) in AllStart p texts
unfolding suggestions_in
suggestions_in-AllStart connected [] prefix = matching-AllStart (commands connected) prefix
suggestions_in-AllStart connected (command ∷ args) prefix =
    elim (Bool-cases (member command (commands connected))) [
      | inl h ↦ rw h (matching-AllStart (candidates command args) prefix)
      | inr h ↦ rw h tt
    ]

suggestions-AllStart :
    (connected : Bool) (context : Option (List String × String))
    → let (p, texts) = suggestions connected context in AllStart p texts
unfolding suggestions
suggestions-AllStart connected none = tt
suggestions-AllStart connected (some (tokens, prefix)) =
    suggestions_in-AllStart connected tokens prefix

-- Each completion that is offered starts with the text that it replaces, and a session without a
-- connection is offered no command that it would refuse for that.
pub suggestions_lem :
    (connected : Bool) (context : Option (List String × String)) (prefix : String)
    → let (p, texts) = suggestions connected context in
      AllStart p texts × AllOffline (suggestions false (some ([], prefix))).1
unfolding suggestions suggestions_in
suggestions_lem connected context prefix = (
  suggestions-AllStart connected context,
  matching-AllOffline disconnected_commands prefix (refl, (refl, (refl, (refl, tt)))),
)
