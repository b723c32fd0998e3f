-- ===== src/Session/Picked.antt =====
-- The device that the user picks.
use rp2350_relay_6ch.Prelude.{
  ℕ, zero, suc, ◌≡◌, refl, String, Bool-cases, inl, inr, Option, none, some, List, [], ◌∷◌, ◌++◌,
  ap, get_elem?, member,
}
use rp2350_relay_6ch.Prelude.Int.{ℤ, pos, negsuc}
use rp2350_relay_6ch.Value.{Python}
use rp2350_relay_6ch.Discovery.{RelayUsbDevice}
use rp2350_relay_6ch.Session.World.{SessionWorld, Input, line, interrupt, end_of_file, Trace}
use rp2350_relay_6ch.Session.Select.{
  Selection, nothing, stopped, broken_off, chosen, Verdict, cancel, pick, again, verdict_of_number,
  verdict, follow, choose_device,
}

module _ (world : SessionWorld) (py : Python) (devices : List RelayUsbDevice) where
  -- a number is read as that of the device in the list, counted from one
  abbrev pub Numbered : Option ℤ → RelayUsbDevice → Type 0
  Numbered number d = (k : ℕ) × (number ≡ some (pos (suc k))) × (get_elem? devices k ≡ some d)

  -- a device is chosen by a line that the user typed
  abbrev pub IsPicked : List Input → Selection → Type 0
  IsPicked input (chosen d) =
      (before : List Input) × (text : String) × (after : List Input) × (input
        ≡ before ++ line text ∷ after)
      × Numbered (py.int_of_decimal (py.strip text)) d
  IsPicked input selection = Unit {0}

  -- the verdict on an answer picks the device with its number
  abbrev Picks : Option ℤ → Verdict → Type 0
  Picks number (pick d) = Numbered number d
  Picks number v = Unit {0}

  picked_at-Picks :
      (k : ℕ) (o : Option RelayUsbDevice) (m : String)
      → get_elem? devices k ≡ o
      → Picks (some (pos (suc k))) (elim o [ none ↦ again m | some d ↦ pick d ])
  picked_at-Picks k none m e = tt
  picked_at-Picks k (some d) m e = (k, refl, e)

  number-Picks : (number : Option ℤ) → Picks number (verdict_of_number world py devices number)
  unfolding verdict_of_number
  number-Picks none = tt
  number-Picks (some (pos zero)) = tt
  number-Picks (some (pos (suc k))) = picked_at-Picks k (get_elem? devices k) _ refl
  number-Picks (some (negsuc n)) = tt

  verdict-Picks :
      (choice : String) → Picks (py.int_of_decimal choice) (verdict world py devices choice)
  unfolding verdict
  verdict-Picks choice =
      elim (Bool-cases (member (py.lower choice) ("q" ∷ "quit" ∷ "cancel" ∷ []))) [
        | inl h ↦ rw h tt
        | inr h ↦ rw h (number-Picks (py.int_of_decimal choice))
      ]

  later-IsPicked :
      (i : Input) (input : List Input) (c : Selection) → IsPicked input c → IsPicked (i ∷ input) c
  later-IsPicked i input (chosen d) (before, text, after, e, n) =
      (i ∷ before, text, after, ap (λ l. i ∷ l) e, n)
  later-IsPicked i input nothing h = tt
  later-IsPicked i input stopped h = tt
  later-IsPicked i input broken_off h = tt

  follow-IsPicked :
      (text : String) (v : Verdict) (go_on : String → Selection × List Input × Trace)
      (input : List Input) (t : Trace)
      → Picks (py.int_of_decimal (py.strip text)) v
      → ((m : String) → IsPicked input (go_on m).0)
      → IsPicked (line text ∷ input) (follow v go_on input t).0
  unfolding follow
  follow-IsPicked text cancel go_on input t p h = tt
  follow-IsPicked text (pick d) go_on input t p h = ([], text, input, refl, p)
  follow-IsPicked text (again m) go_on input t p h =
      later-IsPicked (line text) input (go_on m).0 (h m)

  -- A session that asks for a device connects to none but the one with the number, counted from
  -- one, that a line of the user gives in the list that was printed.
  pub choose_device-IsPicked :
      (input : List Input) (t : Trace) → IsPicked input (choose_device world py devices input t).0
  unfolding choose_device
  choose_device-IsPicked [] t = tt
  choose_device-IsPicked (interrupt ∷ input) t = tt
  choose_device-IsPicked (end_of_file ∷ input) t = tt
  choose_device-IsPicked (line text ∷ input) t =
      follow-IsPicked text (verdict world py devices (py.strip text)) _ input _
        (verdict-Picks (py.strip text)) (λ m. choose_device-IsPicked input _)
