-- ===== src/Systemd/Doctor.antt =====
-- doctor of host/rp2350_relay_6ch/systemd.py, and the command of relayctl that calls it.
use rp2350_relay_6ch.Prelude.{
  String, Bool, true, false, Option, none, some, List, [], ◌∷◌, ◌++◌, ◌&&◌, if◌then◌else◌, str_eq,
  ◌<>◌,
}
use rp2350_relay_6ch.Errors.{Result, ok, err, Done, and_then, message, validation}
use rp2350_relay_6ch.Value.{Python, Fields, end, field, str, bool, arr, Items, nil, cons}
use rp2350_relay_6ch.Config.{RelayInstanceConfig, System}
use rp2350_relay_6ch.Config.Resolve.{resolve_instance_config}
use rp2350_relay_6ch.Systemd.{
  Files, content, Machine, default_paths, systemd_unescape_arg, validate_python_imports_package,
}

pub record DoctorResult : Type 0 where
  pub passed : Bool
  pub messages : List String

module _ (sys : System) (m : Machine) where
  -- one line of the report of doctor, which passes or not
  abbrev pub noted : Bool → String → DoctorResult → DoctorResult
  noted fine line r = record { passed = r.passed && fine; messages = r.messages ++ line ∷ [] }

  -- _python_from_unit of a unit's text
  abbrev pub python_from_unit : String → Option String
  python_from_unit text = elim (m.exec_start text) [
    | none ↦ none
    | some arg ↦ some (systemd_unescape_arg arg)
  ]

  report_import : String → Done → DoctorResult → DoctorResult
  report_import python (ok _) r = noted true ("python imports package: " <> python) r
  report_import python (err e) r = noted false (message e) r

  report_python : Option String → DoctorResult → DoctorResult
  unfolding report_import
  report_python none r =
      noted false "unit ExecStart does not use python -m rp2350_relay_6ch.daemon" r
  report_python (some python) r =
      if m.is_file python
      then report_import python (validate_python_imports_package sys m python) r
      else noted false ("missing python: " <> python) r

  -- the checks of the unit and of its interpreter
  unfoldable pub report_unit : String → Option String → DoctorResult → DoctorResult
  unfolding report_python
  report_unit path none r = noted false ("missing unit: " <> path) r
  report_unit path (some text) r =
      report_python (python_from_unit text) (noted true ("unit: " <> path) r)

  -- the check of the configuration; only RelayValidationError is caught
  report_resolved : Result RelayInstanceConfig → DoctorResult → Result DoctorResult
  report_resolved (ok c) r = ok (
      noted true
        ("instance " <> c.name <> ": " <> c.selector_type <> "=" <> c.selector_value <> ", socket="
          <> c.socket_path)
        r)
  report_resolved (err (validation text)) r = ok (noted false ("config error: " <> text) r)
  report_resolved (err e) r = err e

  unfoldable pub report_config : Python → Option String → DoctorResult → Result DoctorResult
  unfolding report_resolved
  report_config py none r = ok (noted true ("config: " <> (default_paths sys m).config_path) r)
  report_config py (some name) r =
      if str_eq name ""
      then ok (noted true ("config: " <> (default_paths sys m).config_path) r)
      else report_resolved (resolve_instance_config sys py (some name) none end sys.environ) r

  -- doctor
  unfoldable pub doctor : Python → Option String → Files → Result DoctorResult
  unfolding report_unit report_config
  doctor py instance_name files = report_config py instance_name (
      report_unit (default_paths sys m).unit_path (content files (default_paths sys m).unit_path)
        (record { passed = true; messages = [] }))

  items : List String → Items
  items [] = nil
  items (line ∷ lines) = cons (str line) (items lines)

  -- cmd_systemd_doctor of relayctl.py
  unfoldable pub cmd_systemd_doctor : Python → Option String → Files → Result Fields
  unfolding doctor items
  cmd_systemd_doctor py instance_name files =
      and_then (doctor py instance_name files)
        (λ r. ok (field "ok" (bool r.passed) (field "messages" (arr (items r.messages)) end)))
