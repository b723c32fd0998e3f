-- ===== src/Config/Selector.antt =====
-- Which selector an instance ends up with.
use rp2350_relay_6ch.Prelude.{
  ◌≡◌, refl, ap, ◌∙◌, inl, inr, String, false, Option, some, str_eq, eq_refl, eq_iff, Bool-cases,
  arith, if◌then◌else◌,
}
use rp2350_relay_6ch.Errors.{and_then}
use rp2350_relay_6ch.Value.{Value, Fields, end, field, null, str, lookup, get, get_or}
use rp2350_relay_6ch.Config.{
  apply_env, env_fields, System, put, pop, override, clear_other_selector, apply_overrides,
  optional_str,
}
use rp2350_relay_6ch.Config.Resolve.{
  merged, coerce_instance, coerce_settings, required_path, selector,
}

get-put : (k : String) (v : Value) (d : Fields) → get k (put k v d) ≡ v
unfolding get lookup put
get-put k v end = rw (eq_refl k) refl
get-put k v (field j u d) = elim (Bool-cases (str_eq j k)) [
  | inl h ↦ rw h (rw h refl)
  | inr h ↦ rw h (rw h (get-put k v d))
]

get-pop : (k : String) (d : Fields) → get k (pop k d) ≡ null
unfolding get lookup pop
get-pop k end = refl
get-pop k (field j u d) = elim (Bool-cases (str_eq j k)) [
  | inl h ↦ rw h (get-pop k d)
  | inr h ↦ rw h (rw h (get-pop k d))
]

lookup-put_other :
    (k j : String) (v : Value) (d : Fields) → str_eq j k ≡ false → lookup k (put j v d) ≡ lookup k d
unfolding lookup put
lookup-put_other k j v end h = rw h refl
lookup-put_other k j v (field i u d) h = elim (Bool-cases (str_eq i j)) [
  | inl e ↦
      let other : str_eq i k ≡ false = ap (λ x. str_eq x k) ((eq_iff i j).0 e) ∙ h in ground arith
  | inr e ↦ rw e (ap (λ x. if str_eq i k then some u else x) (lookup-put_other k j v d h))
]

-- a key that an override sets, and the one that it clears
overridden :
    (k j : String) (v : Value) (d : Fields)
    → str_eq k j ≡ false
    → (get k (put k v (pop j d)) ≡ v) × (get j (put k v (pop j d)) ≡ null)
unfolding get
overridden k j v d h =
    (get-put k v (pop j d), ap (get_or null) (lookup-put_other j k v (pop j d) h) ∙ get-pop j d)

module _ (sys : System) (name path text : String) (values : Fields) (env : String → Option String)
    (given : str_eq text "" ≡ false) where
  -- the configuration whose selector is this one
  abbrev pub SelectedBy : String → Fields → Type 0
  SelectedBy key overrides =
      let merged_values = merged sys values overrides env in
      coerce_instance sys name merged_values path
      ≡ and_then (required_path sys (get "socket" merged_values) "socket")
          (λ socket. coerce_settings sys name merged_values path (key, text) socket)

  -- A port or a serial that is given as an override is the selector, whatever the file and the
  -- environment say, also where they name the other selector: the configuration is the one with
  -- that selector and the remaining settings, and is not refused for having two selectors or none.
  pub override-SelectedBy :
      SelectedBy "port" (field "port" (str text) end)
      × SelectedBy "serial" (field "serial" (str text) end)
  unfolding coerce_instance merged apply_overrides override clear_other_selector selector
      optional_str
  override-SelectedBy =
      let V = apply_env env_fields env values in
      let (p, s) = overridden "port" "serial" (str text) V refl in
      let (s', p') = overridden "serial" "port" (str text) V refl in
      (rw (p, s) (rw given refl), rw (s', p') (rw given refl))
