-- ===== src/Systemd/Install.antt =====
-- What an installation leaves as it was.
use rp2350_relay_6ch.Prelude.{
  ◌≡◌, refl, sym, ap, ◌∙◌, String, Bool, true, false, Option, none, some, ◌∷◌, is_some,
  if◌then◌else◌, str_eq, Bool-cases, Option-cases, inl, inr, eq_iff, eq_refl,
}
use rp2350_relay_6ch.Errors.{Result, ok, err, Exc}
use rp2350_relay_6ch.Action.{Act, ◌>>=◌, ◌>>◌, continue, lift, pure, went_on, went_on_from}
use rp2350_relay_6ch.Config.{System}
use rp2350_relay_6ch.Systemd.{
  Files, find, content, Machine, SystemdPaths, default_paths, render_unit, sample_config, mkdir,
  write_text, write_file, write_config, install_files, install_summary, install_user_unit,
}

-- every text that was there is there
abbrev pub Unchanged : Files → Files → Type 0
Unchanged files files' =
    (path text : String) → content files path ≡ some text → content files' path ≡ some text

not_ok :
    {x : Exc} {a : Unit {0}} {b c : Files}
    → ◌≡◌ {A = Result (Unit {0}) × Files} (err x, b) (ok a, c)
    → ⊥
not_ok e = cc

record Keeps {A : Type 0} (f : Act Files A) : Type 0 where
  kept : (files : Files) → Unchanged files (f files).1

module _ {A B : Type 0} where
  continue_kept :
      (r : Result A) (k : A → Act Files B) (files files' : Files)
      → Unchanged files files'
      → ((a : A) → Keeps (k a))
      → Unchanged files (continue r k files').1
  continue_kept (ok a) k files files' u h =
      λ path text e. (h a).kept files' path text (u path text e)
  continue_kept (err x) k files files' u h = u

  bind-Keeps :
      {f : Act Files A} {k : A → Act Files B} → Keeps f → ((a : A) → Keeps (k a)) → Keeps (f >>= k)
  bind-Keeps {f = f} {k = k} p h = record {
    kept = λ files. continue_kept (f files).0 k files (f files).1 (p.kept files) h;
  }

lift-Keeps : {A : Type 0} (r : Result A) → Keeps (lift {S = Files} r)
lift-Keeps r = record { kept = λ files path text e. e }

module _ (sys : System) (m : Machine) where
  mkdir-Keeps : (dir : String) → Keeps (mkdir sys m dir)
  unfolding mkdir
  mkdir-Keeps dir = record { kept = λ files path text e. e }

  -- a text under a new path
  new_text :
      (files : Files) (path text p t : String)
      → content files path ≡ none
      → content files p ≡ some t
      → find p ((path, text) ∷ files.texts) ≡ some t
  unfolding find
  new_text files path text p t fresh e = elim (Bool-cases (str_eq path p)) [
    | inl h ↦ absurd (clash ((eq_iff path p).0 h))
    | inr h ↦ rw h e
  ]
    where
      clash : path ≡ p → ⊥
      clash same = cc

  written :
      (error : Option String) (files : Files) (path text : String)
      → content files path ≡ none
      → Unchanged files (write_text sys m error path text files).1
  unfolding write_text
  written none files path text fresh = λ p t e. new_text files path text p t fresh e
  written (some error) files path text fresh = λ p t e. e

  write_file-Keeps : (path text : String) → Keeps (write_file sys m path text false)
  unfolding write_file
  write_file-Keeps path text = record {
    kept = λ files. elim (Option-cases (content files path)) [
      | inl h ↦ rw h (written (m.write_error path) files path text h)
      | inr (old, h) ↦ rw h (λ p t e. e)
    ];
  }

  write_config-Keeps : (paths : SystemdPaths) → Keeps (write_config sys m paths false)
  unfolding write_config
  write_config-Keeps paths = record {
    kept = λ files. elim (Bool-cases (is_some (content files paths.config_path))) [
      | inl h ↦ rw h (λ p t e. e)
      | inr h ↦ rw h (
          (bind-Keeps (lift-Keeps (sample_config sys m))
              (λ text. write_file-Keeps paths.config_path text)).kept
            files)
    ];
  }

  install_files-Keeps :
      (paths : SystemdPaths) (text : String) → Keeps (install_files sys m paths text false)
  unfolding install_files
  install_files-Keeps paths text = bind-Keeps (mkdir-Keeps paths.systemd_user_dir) (λ _.
      bind-Keeps (mkdir-Keeps paths.relay_config_dir) (λ _.
        bind-Keeps (write_file-Keeps paths.unit_path text) (λ _.
          bind-Keeps (write_config-Keeps paths)
            (λ _. lift-Keeps (ok (install_summary sys m paths))))))

  print_or_install-Keeps :
      (print_unit : Bool) (text : String)
      → Keeps
          (if print_unit then pure text else install_files sys m (default_paths sys m) text false)
  print_or_install-Keeps true text = lift-Keeps (ok text)
  print_or_install-Keeps false text = install_files-Keeps (default_paths sys m) text

  written_ok :
      (error : Option String) (files files' : Files) (path text : String) (a : Unit {0})
      → write_text sys m error path text files ≡ (ok a, files')
      → content files' path ≡ some text
  unfolding write_text find
  written_ok none files files' path text a e = rw (← ap (λ r. r.1) e, eq_refl path) refl
  written_ok (some error) files files' path text a e = cc

  write_file_ok :
      (files files' : Files) (path text : String) (a : Unit {0})
      → write_file sys m path text false files ≡ (ok a, files')
      → content files' path ≡ some text
  unfolding write_file
  write_file_ok files files' path text a e = elim (Option-cases (content files path)) [
    | inl h ↦ written_ok (m.write_error path) files files' path text a (rw h at e)
    | inr (old, h) ↦ absurd (not_ok (rw h at e))
  ]

  write_config_ok :
      (paths : SystemdPaths) (files files' : Files) (a : Unit {0})
      → write_config sys m paths false files ≡ (ok a, files')
      → is_some (content files' paths.config_path) ≡ true
  unfolding write_config
  write_config_ok paths files files' a e =
      elim (Bool-cases (is_some (content files paths.config_path))) [
        | inl h ↦
            ap (λ (f : Files). is_some (content f paths.config_path))
              (sym (ap (λ r. r.1) (rw h at e)))
            ∙ h
        | inr h ↦
            went_on (sample_config sys m) _ files (rw h at e)
              (λ text p q. ap is_some (write_file_ok files files' paths.config_path text a q))
      ]

  -- what a successful installation has written
  abbrev pub IsInstalled : Option String → Files → Type 0
  IsInstalled python_path files =
      (text : String) × (render_unit sys m python_path (some (default_paths sys m).config_path)
        ≡ ok text)
      × (content files (default_paths sys m).unit_path ≡ some text)
      × (is_some (content files (default_paths sys m).config_path) ≡ true)

  install_files_ok :
      (paths : SystemdPaths) (text out : String) (files files' : Files)
      → install_files sys m paths text false files ≡ (ok out, files')
      → (content files' paths.unit_path ≡ some text)
        × (is_some (content files' paths.config_path) ≡ true)
  unfolding install_files
  install_files_ok paths text out files files' e =
      went_on_from (write_file sys m paths.unit_path text false)
        (λ _. write_config sys m paths false >> pure (install_summary sys m paths))
        (record {
          texts = files.texts;
          dirs = paths.relay_config_dir ∷ paths.systemd_user_dir ∷ files.dirs;
        })
        e
        (λ _ f3 p3 q3.
          went_on_from (write_config sys m paths false) (λ _. pure (install_summary sys m paths)) f3
            q3
            (λ _ f4 p4 q4.
              at_end paths text f3 f4 files' (write_file_ok _ f3 paths.unit_path text tt p3) p4
                (ap (λ r. r.1) q4)))
    where
      at_end :
          (paths : SystemdPaths) (text : String) (f3 f4 files' : Files)
          → content f3 paths.unit_path ≡ some text
          → write_config sys m paths false f3 ≡ (ok tt, f4)
          → f4 ≡ files'
          → (content files' paths.unit_path ≡ some text)
            × (is_some (content files' paths.config_path) ≡ true)
      at_end paths text f3 f4 files' there p same = rw (← same) (
        rw (ap (λ r. r.1) p) at ((write_config-Keeps paths).kept f3 paths.unit_path text there),
        write_config_ok paths f3 f4 tt p,
      )

  chosen :
      (print_unit : Bool) (text out : String) (files files' : Files)
      → print_unit ≡ false
      → (if print_unit then pure text else install_files sys m (default_paths sys m) text false)
          files
        ≡ (ok out, files')
      → (content files' (default_paths sys m).unit_path ≡ some text)
        × (is_some (content files' (default_paths sys m).config_path) ≡ true)
  chosen true text out files files' h e = cc
  chosen false text out files files' h e =
      install_files_ok (default_paths sys m) text out files files' e

  -- Without --force an installation changes no file that was there, whatever its outcome, and with
  -- --print it writes none. If it succeeds, the unit that was rendered stands in its place, and
  -- there is a configuration file.
  pub install_user_unit-Keeps :
      (python_path : Option String) (print_unit : Bool) (files : Files)
      → let (r, files') = install_user_unit sys m false python_path print_unit files in
        Unchanged files files'
        × (print_unit ≡ true → files' ≡ files)
        × ((out : String) → print_unit ≡ false → r ≡ ok out → IsInstalled python_path files')
  unfolding install_user_unit
  install_user_unit-Keeps python_path print_unit files = (
    (bind-Keeps (lift-Keeps _) (λ text. print_or_install-Keeps print_unit text)).kept files,
    printed print_unit _,
    λ out no_print e.
        went_on (render_unit sys m python_path (some (default_paths sys m).config_path)) _ files
          (ap
            (λ (r : Result String).
              (r, (install_user_unit sys m false python_path print_unit files).1))
            e)
          (λ text p q.
            let (there, config) = chosen print_unit text out files _ no_print q in
            (text, p, there, config)),
  )
    where
      printed :
          (print_unit : Bool) (r : Result String)
          → print_unit ≡ true
          → (continue r
              (λ text.
                if print_unit
                then pure text
                else install_files sys m (default_paths sys m) text false)
              files).1
            ≡ files
      printed true (ok text) h = refl
      printed true (err x) h = refl
      printed false r h = cc
