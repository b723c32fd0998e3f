-- ===== src/Command.antt =====
-- The commands of the daemon protocol: the set COMMANDS of host/rp2350_relay_6ch/daemon.py.
use rp2350_relay_6ch.Prelude.{String, ◌≡◌, refl, Option, none, some, str_eq, if◌then◌else◌}

pub data Command : Type 0 where
  identity capabilities build_info get get_all set set_all pulse off_all status health transport
        safety watchdog reboot bootsel daemon_status :
      Command

unfoldable pub name : Command → String
name identity = "identity"
name capabilities = "capabilities"
name build_info = "build-info"
name get = "get"
name get_all = "get-all"
name set = "set"
name set_all = "set-all"
name pulse = "pulse"
name off_all = "off-all"
name status = "status"
name health = "health"
name transport = "transport"
name safety = "safety"
name watchdog = "watchdog"
name reboot = "reboot"
name bootsel = "bootsel"
name daemon_status = "daemon-status"

-- `command in COMMANDS`, with the member
unfoldable pub of_name : String → Option Command
of_name s =
    if str_eq s "identity"
    then some identity
    else if str_eq s "capabilities"
    then some capabilities
    else if str_eq s "build-info"
    then some build_info
    else if str_eq s "get"
    then some get
    else if str_eq s "get-all"
    then some get_all
    else if str_eq s "set"
    then some set
    else if str_eq s "set-all"
    then some set_all
    else if str_eq s "pulse"
    then some pulse
    else if str_eq s "off-all"
    then some off_all
    else if str_eq s "status"
    then some status
    else if str_eq s "health"
    then some health
    else if str_eq s "transport"
    then some transport
    else if str_eq s "safety"
    then some safety
    else if str_eq s "watchdog"
    then some watchdog
    else if str_eq s "reboot"
    then some reboot
    else if str_eq s "bootsel"
    then some bootsel
    else if str_eq s "daemon-status"
    then some daemon_status
    else none

pub of_name-name : (c : Command) → of_name (name c) ≡ some c
unfolding of_name name
of_name-name identity = refl
of_name-name capabilities = refl
of_name-name build_info = refl
of_name-name get = refl
of_name-name get_all = refl
of_name-name set = refl
of_name-name set_all = refl
of_name-name pulse = refl
of_name-name off_all = refl
of_name-name status = refl
of_name-name health = refl
of_name-name transport = refl
of_name-name safety = refl
of_name-name watchdog = refl
of_name-name reboot = refl
of_name-name bootsel = refl
of_name-name daemon_status = refl
