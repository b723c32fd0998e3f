-- ===== src/Systemd.antt =====
-- The systemd helpers (host/rp2350_relay_6ch/systemd.py), and the command of relayctl that
-- installs. The files are the state; a write may fail. What the machine is asked for (paths, the
-- Python interpreters, the packaged texts, the regular expression of a unit) is a parameter.
pub mod Doctor
pub mod Escape
pub mod Install
use Prim.Native.Char.{Char, code}
use Prim.Native.String
use rp2350_relay_6ch.Prelude.{
  ℕ, String, Bool, true, false, Option, none, some, List, [], ◌∷◌, ◌++◌, ◌==◌, ◌&&◌, ◌||◌, not,
  is_some, if◌then◌else◌, str_eq, ◌<>◌, join,
}
use rp2350_relay_6ch.Errors.{Exc, Result, ok, err, Done, and_then, message, validation, foreign}
use rp2350_relay_6ch.Value.{Python, Value, Fields, end, field, str, bool, arr, Items, nil, cons}
use rp2350_relay_6ch.Action.{Act, pure, raise, lift, gets, ◌>>=◌, ◌>>◌}
use rp2350_relay_6ch.Config.{RelayInstanceConfig, System, or_else, or_text}
use rp2350_relay_6ch.Config.Resolve.{resolve_instance_config}

abbrev percent : Char → Bool
percent c = code c == 37

-- _systemd_escape_arg: every % is doubled
unfoldable pub systemd_escape_arg : String → String
systemd_escape_arg String.[] = String.[]
systemd_escape_arg (String.◌∷◌ c s) =
    if percent c
    then String.◌∷◌ c (String.◌∷◌ c (systemd_escape_arg s))
    else String.◌∷◌ c (systemd_escape_arg s)

-- _systemd_unescape_arg: `replace` takes pairs of % from the left
unfoldable pub systemd_unescape_arg : String → String
systemd_unescape_arg String.[] = String.[]
systemd_unescape_arg (String.◌∷◌ c String.[]) = String.◌∷◌ c String.[]
systemd_unescape_arg (String.◌∷◌ c (String.◌∷◌ d s)) =
    let kept = String.◌∷◌ c (systemd_unescape_arg (String.◌∷◌ d s)) in
    let halved = String.◌∷◌ c (systemd_unescape_arg s) in
    if percent c && percent d then halved else kept

-- the text files, the newest content of a path first, and the directories that were made
pub record Files : Type 0 where
  pub texts : List (String × String)
  pub dirs : List String

unfoldable pub find : String → List (String × String) → Option String
find path [] = none
find path ((p, text) ∷ texts) = if str_eq p path then some text else find path texts

abbrev pub content : Files → String → Option String
content files path = find path files.texts

-- what running `python -c "import rp2350_relay_6ch"` did: OSError, or a return code and the
-- stripped texts of its standard error and output
pub data Imported : Type 0 where
  not_run : Imported
  ran : ℕ → String → String → Imported

-- `unit` is the template with its two arguments, or the exception of `format`; `exec_start` is the
-- first argument of the ExecStart line; `write_error` is the text of the OSError of a write.
pub record Machine : Type 0 where
  pub expanduser : String → String
  pub expandvars : String → String
  pub abspath : String → String
  pub join_path : String → String → String
  pub executable : String
  pub import_package : String → Imported
  pub asset : String → Result String
  pub unit : String → String → String → Result String
  pub exec_start : String → Option String
  pub is_file : String → Bool
  pub write_error : String → Option String

pub record SystemdPaths : Type 0 where
  pub systemd_user_dir : String
  pub relay_config_dir : String
  pub config_path : String
  pub unit_path : String

module _ (sys : System) (m : Machine) where
  -- configured_config_path()
  abbrev pub configured_config_path : String
  configured_config_path =
      sys.expand_path (or_text (sys.environ "RP2350_RELAY_CONFIG") sys.default_config_path)

  -- `os.environ.get(key, default)`
  abbrev config_home : Option String → String
  config_home none = m.expanduser "~/.config"
  config_home (some dir) = m.expanduser dir

  unfoldable pub default_paths : SystemdPaths
  default_paths =
      let home = config_home (sys.environ "XDG_CONFIG_HOME") in
      let user_dir = m.join_path (m.join_path home "systemd") "user" in
      record {
        systemd_user_dir = user_dir;
        relay_config_dir = m.join_path home "rp2350-relay";
        config_path = configured_config_path;
        unit_path = m.join_path user_dir "rp2350-relayd@.service";
      }

  imported : String → Imported → Done
  imported python not_run = err (validation ("python is not executable: " <> python))
  imported python (ran returncode stderr stdout) =
      if returncode == 0
      then ok tt
      else err (
          validation (
            "python cannot import rp2350_relay_6ch: "
            <> python
            <> ": "
            <> (if not (str_eq stderr "")
                then stderr
                else if not (str_eq stdout "")
                then stdout
                else "import failed")))

  -- _validate_python_imports_package
  unfoldable pub validate_python_imports_package : String → Done
  unfolding imported
  validate_python_imports_package python = imported python (m.import_package python)

  -- render_unit
  unfoldable pub render_unit : Option String → Option String → Result String
  unfolding validate_python_imports_package systemd_escape_arg
  render_unit python_path config_path =
      let python = m.abspath (m.expanduser (or_text python_path m.executable)) in
      let config = m.expandvars (m.expanduser (or_text config_path sys.default_config_path)) in
      and_then (validate_python_imports_package python) (λ _.
        and_then (m.asset "rp2350-relayd@.service.in")
          (λ template. m.unit template (systemd_escape_arg python) (systemd_escape_arg config)))

  abbrev sample_config : Result String
  sample_config = m.asset "config.toml.example"

  -- `mkdir(parents=True, exist_ok=True)`
  unfoldable pub mkdir : String → Act Files (Unit {0})
  mkdir dir files = (ok tt, record files { dirs = dir ∷ files.dirs })

  write_text : Option String → String → String → Act Files (Unit {0})
  write_text none path text files = (ok tt, record files { texts = (path, text) ∷ files.texts })
  write_text (some error) path text files = (err (foreign error), files)

  -- _write_file
  unfoldable pub write_file : String → String → Bool → Act Files (Unit {0})
  unfolding write_text find
  write_file path text force files =
      if is_some (content files path) && not force
      then (err (validation ("file exists, use --force to overwrite: " <> path)), files)
      else write_text (m.write_error path) path text files

  -- the sample configuration is written where there is none, or by force
  unfoldable pub write_config : SystemdPaths → Bool → Act Files (Unit {0})
  unfolding write_file
  write_config paths force files =
      if not (is_some (content files paths.config_path)) || force
      then (lift sample_config >>= λ text. write_file paths.config_path text force) files
      else (ok tt, files)

  abbrev pub install_summary : SystemdPaths → String
  install_summary paths = join "\n" (
      ("installed unit: " <> paths.unit_path)
      ∷ ("config file:    " <> paths.config_path)
      ∷ ""
      ∷ "Next commands:"
      ∷ "  systemctl --user daemon-reload"
      ∷ "  rp2350-relayctl systemd doctor --instance bench-a"
      ∷ "  systemctl --user enable --now rp2350-relayd@bench-a"
      ∷ "  journalctl --user -u rp2350-relayd@bench-a"
      ∷ ""
      ∷ "For PC-boot startup before login:"
      ∷ "  sudo loginctl enable-linger \"$USER\""
      ∷ [])

  -- the part of install_user_unit that changes files
  unfoldable pub install_files : SystemdPaths → String → Bool → Act Files String
  unfolding mkdir write_file write_config
  install_files paths text force = do
    mkdir paths.systemd_user_dir
    mkdir paths.relay_config_dir
    write_file paths.unit_path text force
    write_config paths force
    pure (install_summary paths)

  -- install_user_unit
  unfoldable pub install_user_unit : Bool → Option String → Bool → Act Files String
  unfolding default_paths render_unit install_files
  install_user_unit force python_path print_unit =
      lift (render_unit python_path (some default_paths.config_path)) >>= λ text.
      if print_unit then pure text else install_files default_paths text force

  -- cmd_systemd_install of relayctl.py
  unfoldable pub cmd_systemd_install : Bool → Option String → Bool → Act Files Fields
  unfolding install_user_unit
  cmd_systemd_install force python_path print_unit =
      install_user_unit force python_path print_unit >>= λ output.
      pure (field "message" (str output) end)
