-- ===== src/Systemd/Escape.antt =====
-- The escape of systemd's specifiers.
use Prim.Native.Char.{Char, code}
use rp2350_relay_6ch.Prelude.{
  ◌≢◌, arith, ◌≡◌, refl, ap, ◌∙◌, String, true, false, Bool-cases, inl, inr,
}
use rp2350_relay_6ch.Systemd.{percent, systemd_escape_arg, systemd_unescape_arg}

-- a character that is no % stays
plain :
    (c : Char) (s : String)
    → percent c ≡ false
    → systemd_unescape_arg (String.◌∷◌ c s) ≡ String.◌∷◌ c (systemd_unescape_arg s)
unfolding systemd_unescape_arg
plain c String.[] h = refl
plain c (String.◌∷◌ d s) h = rw h refl

doubled :
    (c : Char) (s : String)
    → percent c ≡ true
    → systemd_unescape_arg (String.◌∷◌ c (String.◌∷◌ c s)) ≡ String.◌∷◌ c (systemd_unescape_arg s)
unfolding systemd_unescape_arg
doubled c s h = rw h refl

-- Each % of the text is one of two that stand together, so that none starts a specifier.
pub data IsPaired : String → Type 0 where
  done : IsPaired String.[]
  other : {c : Char} {s : String} → code c ≢ 37 → IsPaired s → IsPaired (String.◌∷◌ c s)
  pair :
      {c d : Char} {s : String}
      → code c ≡ 37
      → code d ≡ 37
      → IsPaired s
      → IsPaired (String.◌∷◌ c (String.◌∷◌ d s))

escape-IsPaired : (s : String) → IsPaired (systemd_escape_arg s)
unfolding systemd_escape_arg
escape-IsPaired String.[] = done
escape-IsPaired (String.◌∷◌ c s) = elim (Bool-cases (percent c)) [
  | inl h ↦ rw h (pair (ground (arith, h)) (ground (arith, h)) (escape-IsPaired s))
  | inr h ↦ rw h (other (λ e. ground (arith, h, e)) (escape-IsPaired s))
]

unescape-escape : (s : String) → systemd_unescape_arg (systemd_escape_arg s) ≡ s
unfolding systemd_escape_arg
unescape-escape String.[] = unfold systemd_unescape_arg in refl
unescape-escape (String.◌∷◌ c s) = elim (Bool-cases (percent c)) [
  | inl h ↦ rw h (doubled c (systemd_escape_arg s) h ∙ ap (String.◌∷◌ c) (unescape-escape s))
  | inr h ↦ rw h (plain c (systemd_escape_arg s) h ∙ ap (String.◌∷◌ c) (unescape-escape s))
]

-- In an escaped text every % stands in a pair of them, and unescaping gives the text back.
pub escape_arg_lem :
    (s : String)
    → IsPaired (systemd_escape_arg s) × (systemd_unescape_arg (systemd_escape_arg s) ≡ s)
escape_arg_lem s = (escape-IsPaired s, unescape-escape s)
